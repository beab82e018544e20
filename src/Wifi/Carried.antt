-- ===== src/Wifi/Carried.antt =====
-- What SendSignalWithSocket of cwifi.cc sends is what RecvSignalWithSocket reads.
use mathlib.Core.Path.{subst}
use vwifi.Prelude.{
  ℕ, ◌+◌, ◌-◌, ◌≤◌, ◌≡◌, refl, ap, sym, ◌∙◌, false, some, List, [], ◌∷◌, ◌++◌, append_assoc, arith,
  length, length-append, length-take, length-drop, take, drop,
}
use vwifi.Prelude.Slices.{take-append, drop-append, take-drop, take_of-take}
use vwifi.Prelude.Int.{ℤ, pos, negsuc, ltb_ℤ, ◌≤ℤ◌}
use vwifi.Prelude.Bytes.{of_le, signed, pattern_of}
use vwifi.Platform.{Platform, IsDocumented, Net, Call}
use vwifi.Socket.{DynBuffer, send, read, read_equal_size}
use vwifi.Socket.Sent.{bytes_sent, TakesAll, send_all, send-bytes}
use vwifi.Socket.Pieces.{Pieces, IsBuffer, read_equal_size-Reads, read_byte}
use vwifi.Wifi.{mtu, nlmsghdr_size, power_min, send_signal, recv_signal}

-- A message with its header: `nlmsg_len` holds its size, which is at most that of the largest frame.
pub record IsMessage (bytes : List ℕ) : Type 0 where
  pub headed : nlmsghdr_size ≤ length bytes
  pub fits : length bytes ≤ mtu
  pub measured : of_le (take 4 bytes) ≡ length bytes

-- A power that its byte can hold.
abbrev pub IsPower : ℤ → Type 0
IsPower power = (power_min ≤ℤ power) × (power ≤ℤ pos 127)

power_byte : (power : ℤ) → IsPower power → signed 8 (of_le (pattern_of 8 power ∷ [])) ≡ power
unfolding signed pattern_of of_le
power_byte (pos n) h = ground arith
power_byte (negsuc n) h = ground arith

-- The power goes first, then the message.
send_signal-bytes :
    {q : Platform} (e : ℕ) (net : TakesAll q e) (power : ℤ) (bytes : List ℕ) (n : Net q)
    → bytes_sent e (send_signal q e power bytes n).1.calls
      ≡ bytes_sent e n.calls ++ (pattern_of 8 power ∷ bytes)
unfolding send_signal send pattern_of
send_signal-bytes {q} e net power bytes n =
    let first = pattern_of 8 power ∷ [] in
    let n' = (send q e first n).1 in
    rw (send_all e net first n, send-bytes e net bytes n', send-bytes e net first n)
      (append_assoc (bytes_sent e n.calls) first bytes)

module _ (p : Platform) (known : IsDocumented p) (d : ℕ) (stream : p.World → List ℕ)
    (net : Pieces p d stream) where
  -- The message is what is at the front of the buffer, and the rest of the stream is left.
  abbrev pub Receives : ℤ → List ℕ → List ℕ → ℤ → DynBuffer → p.World → Type 0
  Receives power bytes rest old b w =
      (b' : DynBuffer) × (w' : p.World) × (recv_signal p d old b w
        ≡ some (pos (length bytes), power, b', w'))
      × IsBuffer b'
      × (take (length bytes) b'.buffer ≡ bytes)
      × (stream w' ≡ rest)

  -- The size of a message, as the buffer tells it after its header is read.
  size_of :
      (bytes buffer : List ℕ)
      → IsMessage bytes
      → take 16 buffer ≡ take 16 bytes
      → signed 32 (of_le (take 4 buffer)) ≡ pos (length bytes)
  unfolding signed
  size_of bytes buffer m e =
      let four : take 4 buffer ≡ take 4 bytes =
        sym (take_of-take 4 16 buffer (omega arith))
        ∙ (ap (take 4) e ∙ take_of-take 4 16 bytes (omega arith)) in
      rw (four, m.measured) (ground (arith, m.fits))

  recv_signal_of :
      (old : ℤ) (b b₂ b₃ : DynBuffer) (w w₂ w₃ : p.World) (bs : List ℕ) (n : ℕ)
      → n ≤ mtu
      → (read p d 1 w).0 ≡ some bs
      → read_equal_size p d b 0 (pos nlmsghdr_size) (read p d 1 w).1
        ≡ some (pos nlmsghdr_size, b₂, w₂)
      → signed 32 (of_le (take 4 b₂.buffer)) ≡ pos n
      → read_equal_size p d b₂ nlmsghdr_size (pos n) w₂ ≡ some (pos n, b₃, w₃)
      → recv_signal p d old b w ≡ some (pos n, signed 8 (of_le bs), b₃, w₃)
  unfolding recv_signal
  recv_signal_of old b b₂ b₃ w w₂ w₃ bs n le r h size e =
      let short : ltb_ℤ (pos mtu) (pos n) ≡ false = ground (arith, le) in
      rw (r, recv_signal, h, size, e, short) refl

  pub recv_signal-Receives :
      (v : ℕ) (bytes rest : List ℕ) (old : ℤ) (b : DynBuffer) (w : p.World)
      → IsMessage bytes
      → IsBuffer b
      → stream w ≡ v ∷ bytes ++ rest
      → Receives (signed 8 (of_le (v ∷ []))) bytes rest old b w
  recv_signal-Receives v bytes rest old b w m vb s =
      let n = length bytes in
      let front = take 16 bytes in
      let back = drop 16 bytes in
      let long : length front ≡ 16 = omega (arith, length-take 16 bytes, m.headed) in
      let left : length back ≡ n - 16 = omega (arith, length-drop 16 bytes) in
      let (r, s₁) = read_byte p d stream net v (bytes ++ rest) w s in
      let w₁ = (read p d 1 w).1 in
      let s₁' : stream w₁ ≡ front ++ (back ++ rest) =
        s₁
        ∙ (ap (λ (cs : List ℕ). cs ++ rest) (sym (take-drop 16 bytes))
            ∙ append_assoc front back rest) in
      let all : length (stream w₁) ≡ n + length rest = ap length s₁ ∙ length-append bytes rest in
      let (b₂, w₂, e₂, v₂, room₂, h₂, t₂) =
        read_equal_size-Reads p known d stream net b 0 16 w₁ vb (omega arith) (omega arith)
          (omega (arith, all, m.headed)) in
      let head : take 16 b₂.buffer ≡ front =
        h₂ ∙ (ap (take 16) s₁' ∙ take-append 16 front (back ++ rest) long) in
      let s₂ : stream w₂ ≡ back ++ rest =
        t₂ ∙ (ap (drop 16) s₁' ∙ drop-append 16 front (back ++ rest) long) in
      let (b₃, w₃, e₃, v₃, room₃, h₃, t₃) =
        read_equal_size-Reads p known d stream net b₂ 16 n w₂ v₂ room₂ m.headed
          (omega (arith, ap length s₂, length-append back rest, left)) in
      (
        b₃,
        w₃,
        recv_signal_of old b b₂ b₃ w w₂ w₃ (v ∷ []) n m.fits r e₂ (size_of bytes b₂.buffer m head)
            e₃,
        v₃,
        h₃
            ∙ (ap (λ (cs : List ℕ). cs ++ take (n - 16) (stream w₂)) head
                ∙ (ap (λ (cs : List ℕ). front ++ take (n - 16) cs) s₂
                    ∙ (ap (λ (cs : List ℕ). front ++ cs) (take-append (n - 16) back rest left)
                        ∙ take-drop 16 bytes))),
        t₃ ∙ (ap (drop (n - 16)) s₂ ∙ drop-append (n - 16) back rest left),
      )

  -- The bytes that SendSignalWithSocket sends over a descriptor that takes all, for a message with
  -- its size in its header, at least a header and at most the largest frame, and a power that fits
  -- its byte, followed by any others: RecvSignalWithSocket, on a buffer of its size and however
  -- the stream is cut into pieces, returns the size of the message and the power, has exactly the
  -- message at the front of the buffer, and leaves the bytes behind it.
  pub recv_signal-send_signal :
      (q : Platform) (e : ℕ) (net' : TakesAll q e) (power : ℤ) (bytes rest : List ℕ) (n : Net q)
      (old : ℤ) (b : DynBuffer) (w : p.World)
      → IsPower power
      → IsMessage bytes
      → IsBuffer b
      → n.calls ≡ []
      → stream w ≡ bytes_sent e (send_signal q e power bytes n).1.calls ++ rest
      → Receives power bytes rest old b w
  recv_signal-send_signal q e net' power bytes rest n old b w h m v none s =
      subst (λ x. Receives x bytes rest old b w) (power_byte power h)
        (recv_signal-Receives (pattern_of 8 power) bytes rest old b w m v (
          s
          ∙ ap (λ (cs : List ℕ). cs ++ rest)
              (send_signal-bytes e net' power bytes n
                ∙ ap (λ (cs : List Call). bytes_sent e cs ++ (pattern_of 8 power ∷ bytes)) none)))
