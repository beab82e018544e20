-- ===== src/CtrlClient/Sent.antt =====
-- The bytes that SendCInfoWifi of cctrlserver.cc sends, which vwifi-ctrl.cc reads.
use vwifi.Prelude.{
  ℕ, ◌≡◌, refl, ap, sym, ◌∙◌, true, some, List, [], ◌∷◌, ◌++◌, arith, ltb, lt→ltb, if◌then◌else◌,
  length, get_elem?, append_assoc, append-nil,
}
use vwifi.Platform.{Platform, sent}
use vwifi.Info.{InfoWifi, InfoSocket}
use vwifi.Socket.{send}
use vwifi.Socket.Sent.{
  bytes_sent, bytes_sent-append, same_descriptor, TakesAll, send_all, send-calls,
}
use vwifi.Server.{Server}
use vwifi.Ctrl.{Handler, ◌>>=◌, pure, ctrl_send, send_info_wifi, u32_bytes, coordinate_bytes}
use vwifi.Ctrl.Serving.{ctrl_client_lem}
use vwifi.CtrlClient.Bytes.{info_bytes, name_bytes}

module _ {p : Platform} (d : ℕ) (net : TakesAll p d) where
  -- The handler goes on, having sent `bytes` to the client of the control server.
  abbrev pub Says : Handler p (Unit {0}) → Server p → List ℕ → Type 0
  Says m s bytes =
      (s' : Server p) × (m s ≡ some (some tt, s'))
      × (s'.ctrl_sockets ≡ s.ctrl_sockets)
      × (bytes_sent d s'.net.calls ≡ bytes_sent d s.net.calls ++ bytes)

  pub ctrl_send-Says :
      (bytes : List ℕ) (socket : InfoSocket) (s : Server p)
      → get_elem? s.ctrl_sockets 0 ≡ some socket
      → socket.descriptor ≡ d
      → Says (ctrl_send bytes) s bytes
  unfolding ctrl_send ◌>>=◌
  ctrl_send-Says bytes socket s e same = (
    record s { net = (send p d bytes s.net).1 },
    rw (ctrl_client_lem socket s e, ◌>>=◌, same, send_all d net bytes s.net) refl,
    refl,
    rw
        (
          send-calls d net bytes s.net,
          bytes_sent-append d s.net.calls (sent d bytes ∷ []),
          same_descriptor d bytes,
        )
        refl,
  )

  pub Says-bind :
      (bytes more : List ℕ) (m : Handler p (Unit {0})) (f : Unit {0} → Handler p (Unit {0}))
      (s : Server p)
      → Says m s bytes
      → ((s' : Server p) → s'.ctrl_sockets ≡ s.ctrl_sockets → Says (f tt) s' more)
      → Says (m >>= f) s (bytes ++ more)
  unfolding ◌>>=◌
  Says-bind bytes more m f s (s₁, e₁, c₁, b₁) next =
      let (s₂, e₂, c₂, b₂) = next s₁ c₁ in
      (
        s₂,
        rw (e₁, ◌>>=◌) e₂,
        c₂ ∙ c₁,
        rw (b₂, b₁) (append_assoc (bytes_sent d s.net.calls) bytes more),
      )

  say_name :
      (name : List ℕ) (socket : InfoSocket) (s : Server p)
      → get_elem? s.ctrl_sockets 0 ≡ some socket
      → socket.descriptor ≡ d
      → Says
          (if ltb 0 (length name) then ctrl_send (name ++ 0 ∷ []) else pure tt)
          s
          (name_bytes name)
  say_name [] socket s e same = (s, refl, refl, sym (append-nil (bytes_sent d s.net.calls)))
  say_name (b ∷ name) socket s e same =
      let named : ltb 0 (length (b ∷ name)) ≡ true = lt→ltb _ _ (omega arith) in
      rw named (ctrl_send-Says (b ∷ name ++ 0 ∷ []) socket s e same)

  -- To a client that takes all bytes SendCInfoWifi sends exactly the bytes of the entry, in order:
  -- its CID, its coordinates, the size of its name and, if it has one, the name with a zero.
  pub send_info_wifi-Says :
      (w : InfoWifi) (socket : InfoSocket) (s : Server p)
      → get_elem? s.ctrl_sockets 0 ≡ some socket
      → socket.descriptor ≡ d
      → Says (send_info_wifi w) s (info_bytes w)
  unfolding send_info_wifi
  send_info_wifi-Says w socket s e same =
      Says-bind _ _ _ _ s (ctrl_send-Says (u32_bytes w.cid) socket s e same) λ s₁ c₁.
        let e₁ = ap (λ ss. get_elem? ss 0) c₁ ∙ e in
        Says-bind _ _ _ _ s₁ (ctrl_send-Says (coordinate_bytes w.coordinate) socket s₁ e₁ same)
          λ s₂ c₂.
            let e₂ = ap (λ ss. get_elem? ss 0) c₂ ∙ e₁ in
            Says-bind _ _ _ _ s₂ (ctrl_send-Says (u32_bytes (length w.name)) socket s₂ e₂ same)
              λ s₃ c₃.
                let e₃ = ap (λ ss. get_elem? ss 0) c₃ ∙ e₂ in say_name w.name socket s₃ e₃ same
