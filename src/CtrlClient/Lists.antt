-- ===== src/CtrlClient/Lists.antt =====
-- The bytes that SendList of cctrlserver.cc sends.
use mathlib.Core.Path.{subst}
use vwifi.Prelude.{
  ℕ, zero, suc, drop, Bool, false, ◌≡◌, refl, ap, sym, ◌∙◌, true, some, List, [], ◌∷◌, ◌++◌, arith,
  if◌then◌else◌, length, get_elem?, append-nil,
}
use vwifi.Platform.{Platform}
use vwifi.Info.{InfoWifi, InfoSocket}
use vwifi.Socket.Sent.{bytes_sent, TakesAll}
use vwifi.Server.{Server}
use vwifi.Ctrl.{
  Handler, ◌>>=◌, pure, send_info_wifi, send_infos, send_server_list, send_list, checked, u32_bytes,
}
use vwifi.WifiServer.{WifiServer}
use vwifi.CtrlClient.Bytes.{info_bytes, infos_bytes, listed, list_bytes}
use vwifi.CtrlClient.Sent.{Says, Says-bind, ctrl_send-Says, send_info_wifi-Says}
use vwifi.CtrlClient.Bytes.{infos_bytes-append}

drop-cons :
    (i : ℕ) (ws : List InfoWifi) (w : InfoWifi) (back : List InfoWifi)
    → drop i ws ≡ w ∷ back
    → (get_elem? ws i ≡ some w) × (drop (suc i) ws ≡ back)
drop-cons zero [] w back e = cc
drop-cons zero (v ∷ ws) w back e = (cc, cc)
drop-cons (suc i) [] w back e = cc
drop-cons (suc i) (v ∷ ws) w back e = drop-cons i ws w back e

module _ {p : Platform} (d : ℕ) (net : TakesAll p d) where
  Says-some :
      (m : Handler p (Unit {0})) (s : Server p) (bytes bytes' : List ℕ)
      → bytes ≡ bytes'
      → Says d net m s bytes
      → Says d net m s bytes'
  Says-some m s bytes bytes' e = subst (Says d net m s) e

  -- An entry is looked up and sent if its client is enabled.
  send_entry-Says :
      (ws : List InfoWifi) (i : ℕ) (w : InfoWifi) (enable : Bool) (socket : InfoSocket)
      (s : Server p)
      → get_elem? ws i ≡ some w
      → get_elem? s.ctrl_sockets 0 ≡ some socket
      → socket.descriptor ≡ d
      → Says d net
          (if enable then (checked (get_elem? ws i) >>= λ w. send_info_wifi w) else pure tt)
          s
          (infos_bytes (if enable then w ∷ [] else []))
  unfolding ◌>>=◌
  send_entry-Says ws i w true socket s there e same =
      rw (there, checked)
        (Says-some (send_info_wifi w) s _ _ (sym (append-nil (info_bytes w)))
          (send_info_wifi-Says d net w socket s e same))
  send_entry-Says ws i w false socket s there e same =
      (s, refl, refl, sym (append-nil (bytes_sent d s.net.calls)))

  send_infos-Says :
      (ws : List InfoWifi) (i : ℕ) (ss : List InfoSocket) (back : List InfoWifi)
      (socket : InfoSocket) (s : Server p)
      → drop i ws ≡ back
      → length ss ≡ length back
      → get_elem? s.ctrl_sockets 0 ≡ some socket
      → socket.descriptor ≡ d
      → Says d net (send_infos ws i ss) s (infos_bytes (listed ss back))
  unfolding send_infos
  send_infos-Says ws i [] back socket s b n e same =
      (s, refl, refl, sym (append-nil (bytes_sent d s.net.calls)))
  send_infos-Says ws i (x ∷ ss) [] socket s b n e same = absurd (omega (arith, n))
  send_infos-Says ws i (x ∷ ss) (w ∷ back) socket s b n e same =
      let (there, b') = drop-cons i ws w back b in
      Says-some (send_infos ws i (x ∷ ss)) s _ _
        (sym (infos_bytes-append (if x.enable then w ∷ [] else []) (listed ss back)))
        (Says-bind d net _ _ _ _ s (send_entry-Says ws i w x.enable socket s there e same) λ s₁ c₁.
          send_infos-Says ws (suc i) ss back socket s₁ b' (omega (arith, n))
            (ap (λ (xs : List InfoSocket). get_elem? xs 0) c₁ ∙ e) same)

  send_server_list-Says :
      (x : WifiServer) (socket : InfoSocket) (s : Server p)
      → length x.info_sockets ≡ length x.info_wifis
      → get_elem? s.ctrl_sockets 0 ≡ some socket
      → socket.descriptor ≡ d
      → Says d net (send_server_list x) s (list_bytes x)
  unfolding send_server_list
  send_server_list-Says x socket s paired e same =
      Says-bind d net _ _ _ _ s
        (ctrl_send-Says d net (u32_bytes (length x.info_sockets)) socket s e same)
        λ s₁ c₁.
          send_infos-Says x.info_wifis 0 x.info_sockets x.info_wifis socket s₁ refl paired
            (ap (λ (xs : List InfoSocket). get_elem? xs 0) c₁ ∙ e) same

  -- SendList sends the spies, then the clients: how many there are, and the entries of those that
  -- are enabled.
  pub send_list-Says :
      (socket : InfoSocket) (s : Server p)
      → length s.spies.info_sockets ≡ length s.spies.info_wifis
      → length s.clients.info_sockets ≡ length s.clients.info_wifis
      → get_elem? s.ctrl_sockets 0 ≡ some socket
      → socket.descriptor ≡ d
      → Says d net send_list s (list_bytes s.spies ++ list_bytes s.clients)
  unfolding send_list ◌>>=◌
  send_list-Says socket s vs vc e same =
      Says-bind d net _ _ (send_server_list s.spies) (λ _. send_server_list s.clients) s
        (send_server_list-Says s.spies socket s vs e same)
        λ s₁ c₁.
          send_server_list-Says s.clients socket s₁ vc
            (ap (λ (xs : List InfoSocket). get_elem? xs 0) c₁ ∙ e) same
