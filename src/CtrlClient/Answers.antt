-- ===== src/CtrlClient/Answers.antt =====
-- What GetCInfoWifi of vwifi-ctrl.cc reads back of what SendCInfoWifi of cctrlserver.cc sends.
use vwifi.Prelude.{
  ℕ, suc, ◌≤◌, ◌<◌, ◌≡◌, refl, ap, sym, ◌∙◌, true, false, Option, none, some, List, [], ◌∷◌, ◌++◌,
  arith, lt→ltb, if◌then◌else◌, length, length-append, take, drop, All, append_assoc,
}
use vwifi.Prelude.Slices.{take-append, drop-append}
use vwifi.Prelude.Int.{pos, ltb_ℤ}
use vwifi.Prelude.Bytes.{length-le, of_le-le}
use vwifi.Platform.{Platform, IsDocumented, Net}
use vwifi.Info.{InfoWifi, new_info_wifi, set_cid, set_coordinate, set_name, max_size_name}
use vwifi.Socket.{read, write_at}
use vwifi.WifiServer.Registry.{NameFits, set_cid_total}
use vwifi.Ctrl.{u32_bytes, coordinate_bytes, c_string, zero_coordinate}
use vwifi.CtrlClient.{
  Ask, ◌>>=◌, pure, return_1, checked, ask_read, ask_read_over, get_name, get_c_info_wifi,
}
use vwifi.CtrlClient.Bytes.{
  IsSendable, NonZero, name_buffer, coordinate_of-coordinate_bytes, info_bytes,
  length-coordinate_bytes, name_bytes, name_bytes-cons, size_lem, write_all,
}

-- Where the bytes that come are known, and `recv` gives as many of them as it is asked for.
abbrev pub Delivers : (p : Platform) → (p.World → List ℕ) → Type 0
Delivers p stream =
    (d n : ℕ) (w : p.World)
    → n ≤ length (stream w)
    → ((p.recv d n w).0 ≡ some (take n (stream w))) × (stream (p.recv d n w).1 ≡ drop n (stream w))

module _ {p : Platform} where
  pub bind_at :
      {A B : Type 0} (m : Ask p A) (f : A → Ask p B) (n n' : Net p) (a : A)
      → m n ≡ some (some a, n')
      → (m >>= f) n ≡ f a n'
  unfolding ◌>>=◌
  bind_at m f n n' a e = rw (e, ◌>>=◌) refl

  checked_at :
      {A B : Type 0} (x : Option A) (f : A → Ask p B) (n : Net p) (a : A)
      → x ≡ some a
      → (checked x >>= f) n ≡ f a n
  unfolding ◌>>=◌
  checked_at x f n a e = rw (e, checked) refl

  ask_read_of :
      (d size : ℕ) (bytes : List ℕ) (n : Net p) (w : p.World)
      → read p d size n.world ≡ (some bytes, w)
      → ask_read d size n
        ≡ some (some (write_at 0 bytes (p.uninit size n.world)), record n { world = w })
  unfolding ask_read
  ask_read_of d size bytes n w r =
      ap
        (λ (q : Option (List ℕ) × p.World).
          (let n' : Net p = record n { world = q.1 } in
            elim (q.0) as (λ _. Option (Option (List ℕ) × Net p)) [
              | none ↦ some (none, n')
              | some bs ↦ some (some (write_at 0 bs (p.uninit size n.world)), n')
            ]))
        r

  get_name_of :
      (d k : ℕ) (bytes : List ℕ) (n : Net p) (w : p.World)
      → read p d (suc (suc k)) n.world ≡ (some bytes, w)
      → get_name d (pos (suc k)) n
        ≡ some (some (write_at 0 bytes (p.uninit 13 n.world)), record n { world = w })
  unfolding get_name
  get_name_of d k bytes n w r =
      let positive : ltb_ℤ (pos 0) (pos (suc k)) ≡ true = lt→ltb _ _ (omega arith) in
      rw (positive, get_name)
        (ap
          (λ (q : Option (List ℕ) × p.World).
            (let n' : Net p = record n { world = q.1 } in
              elim (q.0) as (λ _. Option (Option (List ℕ) × Net p)) [
                | none ↦ some (none, n')
                | some bs ↦ some (some (write_at 0 bs (p.uninit 13 n.world)), n')
              ]))
          r)

  ask_read_over_of :
      (d : ℕ) (old bytes : List ℕ) (n : Net p) (w : p.World)
      → read p d (length old) n.world ≡ (some bytes, w)
      → ask_read_over d old n ≡ some (some (write_at 0 bytes old), record n { world = w })
  unfolding ask_read_over
  ask_read_over_of d old bytes n w r =
      ap
        (λ (q : Option (List ℕ) × p.World).
          (let n' : Net p = record n { world = q.1 } in
            elim (q.0) as (λ _. Option (Option (List ℕ) × Net p)) [
              | none ↦ some (none, n')
              | some bs ↦ some (some (write_at 0 bs old), n')
            ]))
        r

  module _ (known : IsDocumented p) (stream : p.World → List ℕ) (net : Delivers p stream) where
    -- The calls that read leave the bytes behind.
    abbrev pub Gets : {A : Type 0} → Ask p A → Net p → A → List ℕ → Type 0
    Gets m n a rest = (n' : Net p) × (m n ≡ some (some a, n')) × (stream n'.world ≡ rest)

    pub Gets-bind :
        {A B : Type 0} (m : Ask p A) (f : A → Ask p B) (n : Net p) (a : A) (b : B)
        (rest rest' : List ℕ)
        → Gets m n a rest
        → ((n' : Net p) → stream n'.world ≡ rest → Gets (f a) n' b rest')
        → Gets (m >>= f) n b rest'
    Gets-bind m f n a b rest rest' (n₁, e₁, s₁) next =
        let (n₂, e₂, s₂) = next n₁ s₁ in (n₂, bind_at m f n n₁ a e₁ ∙ e₂, s₂)

    pub read-Delivers :
        (d size : ℕ) (bytes rest : List ℕ) (w : p.World)
        → length bytes ≡ size
        → 0 < size
        → stream w ≡ bytes ++ rest
        → (w' : p.World) × (read p d size w ≡ (some bytes, w')) × (stream w' ≡ rest)
    unfolding read
    read-Delivers d size [] rest w k h e = absurd (omega arith)
    read-Delivers d size (b ∷ bs) rest w k h e =
        let (r, s) = net d size w (rw e (omega (arith, k, length-append bs rest))) in
        let given : (p.recv d size w).0 ≡ some (b ∷ bs) =
          r ∙ ap some (ap (take size) e ∙ take-append size (b ∷ bs) rest k) in
        (
          (p.recv d size w).1,
          rw (given, read) refl,
          s ∙ (ap (drop size) e ∙ drop-append size (b ∷ bs) rest k),
        )

    pub ask_read-Gets :
        (d size : ℕ) (bytes rest : List ℕ) (n : Net p)
        → length bytes ≡ size
        → 0 < size
        → stream n.world ≡ bytes ++ rest
        → Gets (ask_read d size) n bytes rest
    unfolding ask_read
    ask_read-Gets d size bytes rest n k h e =
        let (w, r, s) = read-Delivers d size bytes rest n.world k h e in
        (
          record n { world = w },
          ask_read_of d size bytes n w r
              ∙ ap (λ bs. some (some bs, record n { world = w }))
                  (write_all bytes (p.uninit size n.world)
                    (known.uninit_size size n.world ∙ sym k)),
          s,
        )

    -- A read into a variable that holds other bytes.
    pub ask_read_over-Gets :
        (d size : ℕ) (bytes old rest : List ℕ) (n : Net p)
        → length bytes ≡ size
        → length old ≡ size
        → 0 < size
        → stream n.world ≡ bytes ++ rest
        → Gets (ask_read_over d old) n bytes rest
    ask_read_over-Gets d size bytes old rest n k h large e =
        let (w, r, s) =
          read-Delivers d (length old) bytes rest n.world (omega (arith, k, h))
            (omega (arith, h, large)) e in
        (
          record n { world = w },
          ask_read_over_of d old bytes n w r
              ∙ ap (λ (bs : List ℕ). some (some bs, record n { world = w }))
                  (write_all bytes old (omega (arith, k, h))),
          s,
        )

    -- The name that follows an entry, as it is sent.
    get_name-Gets :
        (d : ℕ) (name rest : List ℕ) (n : Net p)
        → All NonZero name
        → stream n.world ≡ name_bytes name ++ rest
        → (buffer : List ℕ) × (c_string buffer ≡ some name)
          × Gets (get_name d (pos (length name))) n buffer rest
    unfolding get_name
    get_name-Gets d [] rest n h e = (
      write_at 0 (0 ∷ []) (p.uninit 13 n.world),
      name_buffer [] (p.uninit 13 n.world) tt,
      (n, refl, e),
    )
    get_name-Gets d (b ∷ name) rest n h e =
        let sent = b ∷ name ++ 0 ∷ [] in
        let (w, r, s) =
          read-Delivers d (suc (suc (length name))) sent rest n.world
            (omega (arith, length-append name (0 ∷ []))) (omega arith)
            (e ∙ ap (λ bs. bs ++ rest) (name_bytes-cons b name)) in
        (
          write_at 0 sent (p.uninit 13 n.world),
          name_buffer (b ∷ name) (p.uninit 13 n.world) h,
          (record n { world = w }, get_name_of d (length name) sent n w r, s),
        )

    put_together :
        (w : InfoWifi)
        → NameFits w
        → set_name w.name (set_coordinate w.coordinate (record new_info_wifi { cid = w.cid })) ≡ w
    unfolding set_name new_info_wifi
    put_together w fits = ground arith

    -- What follows the size of the name.
    after_size :
        (d : ℕ) (w : InfoWifi) (rest : List ℕ) (n : Net p)
        → IsSendable w
        → stream n.world ≡ name_bytes w.name ++ rest
        → Gets
            ((if ltb_ℤ (pos max_size_name) (pos (length w.name))
                then return_1
                else get_name d (pos (length w.name)))
              >>= λ str_name. checked (set_cid w.cid new_info_wifi) >>= λ info.
                  checked (c_string str_name) >>= λ name.
                  pure (set_name name (set_coordinate w.coordinate info)))
            n
            w
            rest
    after_size d w rest n v e =
        let (buffer, terminated, got) = get_name-Gets d w.name rest n v.name_bytes e in
        let short : ltb_ℤ (pos max_size_name) (pos (length w.name)) ≡ false = ground arith in
        Gets-bind _ _ n buffer w rest rest (rw short got) λ n' s. (
          n',
          checked_at _ _ n' _ (set_cid_total w.cid new_info_wifi v.cid)
              ∙ (checked_at _ _ n' _ terminated
                  ∙ ap (λ x. some (some x, n')) (put_together w v.name_size)),
          s,
        )

    -- Where recv gives the bytes that it is asked for, GetCInfoWifi reads back exactly the entry
    -- whose bytes come in the order in which they are sent, with its CID, its coordinates and its
    -- name, and leaves the bytes behind it; the entry fits its variables and its name has no zero.
    pub get_c_info_wifi-Gets :
        (d : ℕ) (w : InfoWifi) (rest : List ℕ) (n : Net p)
        → IsSendable w
        → stream n.world ≡ info_bytes w ++ rest
        → Gets (get_c_info_wifi d) n w rest
    unfolding get_c_info_wifi
    get_c_info_wifi-Gets d w rest n v e =
        let name = name_bytes w.name in
        let size = u32_bytes (length w.name) in
        let coo = coordinate_bytes w.coordinate in
        let cid = u32_bytes w.cid in
        Gets-bind _ _ n cid w ((coo ++ (size ++ name)) ++ rest) rest
          (ask_read-Gets d 4 cid _ n (length-le 4 w.cid) (omega arith)
            (e ∙ append_assoc cid (coo ++ (size ++ name)) rest))
          λ n₁ s₁.
            Gets-bind _ _ n₁ coo w ((size ++ name) ++ rest) rest
              (ask_read_over-Gets d 12 coo zero_coordinate _ n₁
                (length-coordinate_bytes w.coordinate) refl (omega arith)
                (s₁ ∙ append_assoc coo (size ++ name) rest))
              λ n₂ s₂.
                Gets-bind _ _ n₂ size w (name ++ rest) rest
                  (ask_read-Gets d 4 size _ n₂ (length-le 4 (length w.name)) (omega arith)
                    (s₂ ∙ append_assoc size name rest))
                  λ n₃ s₃.
                    rw
                      (
                        of_le-le 4 w.cid v.cid_size,
                        coordinate_of-coordinate_bytes w.coordinate v.x_size v.y_size v.z_size,
                        size_lem (length w.name) v.name_size,
                      )
                      (after_size d w rest n₃ v s₃)
