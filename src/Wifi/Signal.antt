-- ===== src/Wifi/Signal.antt =====
-- What RecvSignalWithSocket of cwifi.cc returns.
use vwifi.Prelude.{ℕ, ◌≡◌, refl, inl, inr, Option-cases, false, Option, some, arith, take, if_split}
use vwifi.Prelude.Int.{ℤ, pos, ltb_ℤ, ◌≤ℤ◌}
use vwifi.Prelude.Bytes.{of_le, signed}
use vwifi.Platform.{Platform}
use vwifi.Socket.{DynBuffer, socket_error, is_socket_error, read}
use vwifi.Socket.Stream.{read_equal_size_total}
use vwifi.Wifi.{mtu, nlmsghdr_size, recv_signal}

module _ (p : Platform) where
  abbrev pub Received : Option (ℤ × ℤ × DynBuffer × p.World) → Type 0
  Received x = (r : ℤ × ℤ × DynBuffer × p.World) × (x ≡ some r) × (r.0 ≤ℤ pos mtu)

  fits_mtu : (total : ℤ) → ltb_ℤ (pos mtu) total ≡ false → total ≤ℤ pos mtu
  fits_mtu total h = ground arith

  -- Receiving a signal ends whatever the peer sends, and reports at most the size of the largest
  -- frame.
  pub recv_signal_total :
      (d : ℕ) (power : ℤ) (b : DynBuffer) (w : p.World) → Received (recv_signal p d power b w)
  unfolding recv_signal
  recv_signal_total d power b w = elim (Option-cases (read p d 1 w).0) [
    | inl e ↦ rw (e, recv_signal) ((socket_error, power, b, (read p d 1 w).1), refl, omega arith)
    | inr (bs, e) ↦
        let w₁ = (read p d 1 w).1 in
        let ((h, b₂, w₂), e₂, _) = read_equal_size_total p d b 0 (pos nlmsghdr_size) w₁ in
        let total = signed 32 (of_le (take 4 b₂.buffer)) in
        let ((r, b₃, w₃), e₃, bound) = read_equal_size_total p d b₂ nlmsghdr_size total w₂ in
        let power' = signed 8 (of_le bs) in
        rw (e, recv_signal, e₂, e₃)
          (if_split Received (is_socket_error h)
            (λ _. ((socket_error, power', b₂, w₂), refl, omega arith))
            (λ _.
              if_split Received (ltb_ℤ (pos mtu) total)
                (λ _. ((socket_error, power', b₂, w₂), refl, omega arith))
                (λ fits. (
                  (r, power', b₃, w₃),
                  refl,
                  elim bound [
                    | inl same ↦ rw same (fits_mtu total fits)
                    | inr failed ↦ rw failed (omega arith)
                  ],
                ))))
  ]
