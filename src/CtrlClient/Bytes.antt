-- ===== src/CtrlClient/Bytes.antt =====
-- The bytes of the answers of cctrlserver.cc that vwifi-ctrl.cc reads, and what they hold.
use vwifi.Prelude.{
  ℕ, suc, ◌+◌, ◌≤◌, ◌<◌, ◌≡◌, ◌^◌, refl, ap, sym, ◌∙◌, append-nil, some, List, [], ◌∷◌, ◌++◌, arith,
  ltb, lt→ltb, if◌then◌else◌, length, length-append, drop, All, append_assoc,
}
use vwifi.Prelude.Slices.{take-append, drop-append, take_all, drop_all}
use vwifi.Prelude.Int.{ℤ, pos}
use vwifi.Prelude.Bytes.{
  le, of_le, length-le, of_le-le, signed, pattern_of, pattern_of-lt, FitsS32, signed-pattern_of,
}
use vwifi.Info.{Coordinate, InfoWifi, InfoSocket}
use vwifi.WifiServer.{WifiServer}
use vwifi.Socket.{write_at}
use vwifi.WifiServer.Registry.{NameFits, IsCid}
use vwifi.Ctrl.{u32_bytes, s32_bytes, coordinate_bytes, coordinate_of, c_string}

-- The bytes of an entry, in the order in which they are sent.
abbrev pub name_bytes : List ℕ → List ℕ
name_bytes name = if ltb 0 (length name) then name ++ 0 ∷ [] else []

abbrev pub info_bytes : InfoWifi → List ℕ
info_bytes w =
    u32_bytes w.cid
    ++ (coordinate_bytes w.coordinate ++ (u32_bytes (length w.name) ++ name_bytes w.name))

abbrev pub infos_bytes : List InfoWifi → List ℕ
infos_bytes [] = []
infos_bytes (w ∷ ws) = info_bytes w ++ infos_bytes ws

-- The entries of the enabled clients.
abbrev pub listed : List InfoSocket → List InfoWifi → List InfoWifi
listed [] ws = []
listed (s ∷ ss) [] = []
listed (s ∷ ss) (w ∷ ws) = (if s.enable then w ∷ [] else []) ++ listed ss ws

-- What is sent of a list: how many clients there are, and the entries of the enabled ones.
abbrev pub list_bytes : WifiServer → List ℕ
list_bytes s = u32_bytes (length s.info_sockets) ++ infos_bytes (listed s.info_sockets s.info_wifis)

abbrev pub NonZero : ℕ → Type 0
NonZero b = 0 < b

-- An entry that its variables can hold.
pub record IsSendable (w : InfoWifi) : Type 0 where
  pub cid : IsCid w.cid
  pub cid_size : w.cid < 2 ^ 32
  pub x_size : FitsS32 w.coordinate.x
  pub y_size : FitsS32 w.coordinate.y
  pub z_size : FitsS32 w.coordinate.z
  pub name_size : NameFits w
  pub name_bytes : All NonZero w.name

pub c_string-append :
    (name rest : List ℕ) → All NonZero name → c_string (name ++ 0 ∷ rest) ≡ some name
unfolding c_string
c_string-append [] rest h = refl
c_string-append (b ∷ name) rest h =
    let shorter = c_string-append name rest h.1 in ground (arith, shorter, h.0)

pub behind_two : (x y z : List ℕ) → length x ≡ 4 → length y ≡ 4 → drop 8 (x ++ (y ++ z)) ≡ z
behind_two x y z hx hy =
    rw (sym (append_assoc x y z)) (drop-append 8 (x ++ y) z (omega (arith, length-append x y)))

pub s32_lem : (z : ℤ) → FitsS32 z → signed 32 (of_le (s32_bytes z)) ≡ z
s32_lem z h = rw (of_le-le 4 (pattern_of 32 z) (pattern_of-lt z)) (signed-pattern_of z h)

pub coordinate_of-coordinate_bytes :
    (c : Coordinate)
    → FitsS32 c.x
    → FitsS32 c.y
    → FitsS32 c.z
    → coordinate_of (coordinate_bytes c) ≡ c
unfolding coordinate_of coordinate_bytes
coordinate_of-coordinate_bytes c hx hy hz =
    let x = s32_bytes c.x in
    let y = s32_bytes c.y in
    let z = s32_bytes c.z in
    rw
      (
        append_assoc x y z,
        take-append 4 x (y ++ z) (length-le 4 (pattern_of 32 c.x)),
        drop-append 4 x (y ++ z) (length-le 4 (pattern_of 32 c.x)),
        take-append 4 y z (length-le 4 (pattern_of 32 c.y)),
        behind_two x y z (length-le 4 (pattern_of 32 c.x)) (length-le 4 (pattern_of 32 c.y)),
        take_all 4 z (length-le 4 (pattern_of 32 c.z)),
        s32_lem c.x hx,
        s32_lem c.y hy,
        s32_lem c.z hz,
      )
      refl

pub size_lem : (n : ℕ) → n ≤ 12 → signed 32 (of_le (u32_bytes n)) ≡ pos n
unfolding signed
size_lem n h = rw (of_le-le 4 n (omega arith)) (ground arith)

pub length-coordinate_bytes : (c : Coordinate) → length (coordinate_bytes c) ≡ 12
unfolding coordinate_bytes le
length-coordinate_bytes c = refl

pub write_all : (bs old : List ℕ) → length old ≡ length bs → write_at 0 bs old ≡ bs
write_all bs old h = rw (drop_all (0 + length bs) old (omega arith), append-nil) refl

pub name_bytes-cons : (b : ℕ) (name : List ℕ) → name_bytes (b ∷ name) ≡ b ∷ name ++ 0 ∷ []
name_bytes-cons b name = rw (lt→ltb 0 (suc (length name)) (omega arith)) refl

pub infos_bytes-append :
    (front back : List InfoWifi)
    → infos_bytes (front ++ back) ≡ infos_bytes front ++ infos_bytes back
infos_bytes-append [] back = refl
infos_bytes-append (w ∷ front) back =
    ap (λ (bs : List ℕ). info_bytes w ++ bs) (infos_bytes-append front back)
    ∙ sym (append_assoc (info_bytes w) (infos_bytes front) (infos_bytes back))

-- A name with its zero, at the front of a buffer.
pub name_buffer :
    (name old : List ℕ) → All NonZero name → c_string (write_at 0 (name ++ 0 ∷ []) old) ≡ some name
name_buffer name old h =
    rw (append_assoc name (0 ∷ []) (drop (0 + length (name ++ 0 ∷ [])) old))
      (c_string-append name (drop (0 + length (name ++ 0 ∷ [])) old) h)
