-- ===== src/Wifi.antt =====
-- cwifi.cc: the power of a signal over a distance, its loss, and signals through a socket.
pub mod Power
pub mod Signal
pub mod Carried
use vwifi.Prelude.{
  ℕ, ◌+◌, ◌%◌, Bool, true, false, Option, none, some, ◌>>=◌, List, [], ◌∷◌, if◌then◌else◌, take,
}
use vwifi.Prelude.Int.{ℤ, pos, negsuc, ltb_ℤ, ◌-ℤ◌}
use vwifi.Prelude.Bytes.{of_le, signed, pattern_of}
use vwifi.Platform.{Platform, Net}
use vwifi.Socket.{DynBuffer, socket_error, is_socket_error, send, read, read_equal_size}

abbrev pub default_frequency : ℕ
default_frequency = 2412

abbrev pub mtu : ℕ
mtu = 2352

-- -10 and INT8_MIN, of types.h.
abbrev pub power_max : ℤ
power_max = negsuc 9

abbrev pub power_min : ℤ
power_min = negsuc 127

-- `sizeof(struct nlmsghdr)`.
abbrev pub nlmsghdr_size : ℕ
nlmsghdr_size = 16

unfoldable pub bounded_power : ℤ → ℤ
bounded_power power =
    if ltb_ℤ power power_min then power_min else if ltb_ℤ power_max power then power_max else power

module _ (p : Platform) where
  -- `none`: the parser has failed, and its uninitialised attributes are read.
  unfoldable pub get_frequency : List ℕ → Option ℕ
  get_frequency nlh = do
    attr ← p.frequency_attr nlh
    some (elim attr [ none ↦ default_frequency | some f ↦ f ])

  -- ConstanteC is 92.45.
  unfoldable pub attenuation : p.Real → ℕ → ℤ
  attenuation distance frequency =
      let decades = λ (r : p.Real). p.mul (p.ratio 20 1) (p.sub (p.log10 r) (p.ratio 3 1)) in
      if p.is_zero distance
      then pos 0
      else p.truncate
          (p.add (p.add (p.ratio 9245 100) (decades (p.of_int (pos frequency)))) (decades distance))

  unfoldable pub packet_is_lost : ℤ → p.World → Bool × p.World
  packet_is_lost signal_level w =
      let (r, w') = p.rand w in
      let alea = r % 53 + 40 in
      (if ltb_ℤ (pos 0 -ℤ signal_level) (pos alea) then false else true, w')

  -- SendSignalWithSocket: the power as one byte, then the message.
  unfoldable pub send_signal : ℕ → ℤ → List ℕ → Net p → Option ℕ × Net p
  send_signal d power bytes n =
      let (val, n') = send p d (pattern_of 8 power ∷ []) n in
      elim val [ none ↦ (none, n') | some _ ↦ send p d bytes n' ]

  -- RecvSignalWithSocket: the result, the power and the buffer.
  unfoldable pub recv_signal : ℕ → ℤ → DynBuffer → p.World → Option (ℤ × ℤ × DynBuffer × p.World)
  recv_signal d power buffer w =
      let (val, w₁) = read p d 1 w in
      elim val [
        | none ↦ some (socket_error, power, buffer, w₁)
        | some bs ↦ do
          (header, b₂, w₂) ← read_equal_size p d buffer 0 (pos nlmsghdr_size) w₁
          let power' = signed 8 (of_le bs)
          let total = signed 32 (of_le (take 4 b₂.buffer))
          let tail = do
            (r, b₃, w₃) ← read_equal_size p d b₂ nlmsghdr_size total w₂
            some (r, power', b₃, w₃)
          if is_socket_error header
              then some (socket_error, power', b₂, w₂)
              else if ltb_ℤ (pos mtu) total
              then some (socket_error, power', b₂, w₂)
              else tail
      ]
