-- ===== src/CtrlClient/Shown.antt =====
-- What AskList of vwifi-ctrl.cc shows of the answer of SendList in cctrlserver.cc.
use vwifi.Prelude.{
  ℕ, ◌<◌, ◌^◌, ◌≡◌, refl, ap, sym, ◌∙◌, true, none, some, List, [], ◌∷◌, ◌++◌, arith, length, All,
  append_assoc, append-nil, get_elem?,
}
use vwifi.Prelude.Bytes.{length-le, of_le-le, of_le}
use vwifi.Platform.{Platform, IsDocumented, Net, Call}
use vwifi.Info.{InfoWifi, InfoSocket, new_info_wifi}
use vwifi.Socket.{send}
use vwifi.Socket.Sent.{bytes_sent, TakesAll}
use vwifi.WifiServer.{WifiServer}
use vwifi.Server.{Server}
use vwifi.Ctrl.{u32_bytes, send_list}
use vwifi.Ctrl.Orders.{Order}
use vwifi.CtrlClient.{code, ask_send, close_connection, get_or_keep, get_infos, ask_list}
use vwifi.CtrlClient.Bytes.{IsSendable, info_bytes, infos_bytes, listed, list_bytes}
use vwifi.CtrlClient.Answers.{
  Delivers, bind_at, Gets, ask_read-Gets, ask_read_over-Gets, get_c_info_wifi-Gets,
}
use vwifi.CtrlClient.Lists.{send_list-Says}

-- Sending takes nothing from the bytes that come.
abbrev pub SendingKeeps : (p : Platform) → (p.World → List ℕ) → Type 0
SendingKeeps p stream =
    (d : ℕ) (bytes : List ℕ) (w : p.World) → stream (p.send d bytes w).1 ≡ stream w

module _ {p : Platform} (known : IsDocumented p) (stream : p.World → List ℕ)
    (net : Delivers p stream) where
  get_or_keep-Gets :
      (d : ℕ) (w info : InfoWifi) (rest : List ℕ) (n : Net p)
      → IsSendable w
      → stream n.world ≡ info_bytes w ++ rest
      → Gets known stream net (get_or_keep d info) n w rest
  unfolding get_or_keep
  get_or_keep-Gets d w info rest n v e =
      let (n', g, s) = get_c_info_wifi-Gets known stream net d w rest n v e in
      (n', rw (g, get_or_keep) refl, s)

  -- The loop shows the entries that come, and leaves the last one in `info`.
  get_infos-Gets :
      (d : ℕ) (ws : List InfoWifi) (info : InfoWifi) (rest : List ℕ) (n : Net p)
      → All IsSendable ws
      → stream n.world ≡ infos_bytes ws ++ rest
      → (last : InfoWifi) × Gets known stream net (get_infos (length ws) d info) n (ws, last) rest
  unfolding get_infos
  get_infos-Gets d [] info rest n v e = (info, (n, refl, e))
  get_infos-Gets d (w ∷ ws) info rest n (v, vs) e =
      let (n₁, e₁, s₁) =
        get_or_keep-Gets d w info (infos_bytes ws ++ rest) n v
          (e ∙ append_assoc (info_bytes w) (infos_bytes ws) rest) in
      let (last, (n₂, e₂, s₂)) = get_infos-Gets d ws w rest n₁ vs s₁ in
      (last, (n₂, bind_at _ _ n n₁ w e₁ ∙ (bind_at _ _ n₁ n₂ (ws, last) e₂), s₂))

  module _ (d : ℕ) (takes : TakesAll p d) (keeps : SendingKeeps p stream) where
    ask_send-Gets :
        (bytes rest : List ℕ) (n : Net p)
        → stream n.world ≡ rest
        → Gets known stream net (ask_send d bytes) n tt rest
    unfolding ask_send send
    ask_send-Gets bytes rest n e =
        ((send p d bytes n).1, rw (takes bytes n.world) (ground arith), keeps d bytes n.world ∙ e)

    -- Where the server's answer comes, AskList shows its spies and its clients.
    ask_list-Gets :
        (spies clients : List InfoWifi) (rest : List ℕ) (n : Net p)
        → length spies < 2 ^ 32
        → length clients < 2 ^ 32
        → All IsSendable spies
        → All IsSendable clients
        → stream n.world
          ≡ u32_bytes (length spies)
            ++ (infos_bytes spies ++ (u32_bytes (length clients) ++ (infos_bytes clients ++ rest)))
        → (n' : Net p) × (ask_list d n ≡ some (some (spies, clients), n'))
    unfolding ask_list close_connection
    ask_list-Gets spies clients rest n hs hc vs vc e =
        let number = u32_bytes (length spies) in
        let number' = u32_bytes (length clients) in
        let ns : of_le number ≡ length spies = of_le-le 4 (length spies) (omega (arith, hs)) in
        let nc : of_le number' ≡ length clients = of_le-le 4 (length clients) (omega (arith, hc)) in
        let (n₁, e₁, s₁) = ask_send-Gets (u32_bytes (code Order.list)) _ n e in
        let (n₂, e₂, s₂) =
          ask_read-Gets known stream net d 4 number _ n₁ (length-le 4 (length spies)) (omega arith)
            s₁ in
        let (info, (n₃, e₃, s₃)) = get_infos-Gets d spies new_info_wifi _ n₂ vs s₂ in
        let (n₄, e₄, s₄) =
          ask_read_over-Gets known stream net d 4 number' number _ n₃ (length-le 4 (length clients))
            (length-le 4 (length spies)) (omega arith) s₃ in
        let (last, (n₅, e₅, s₅)) = get_infos-Gets d clients info rest n₄ vc s₄ in
        let e₃' : get_infos (of_le number) d new_info_wifi n₂ ≡ some (some (spies, info), n₃) =
          ap (λ (j : ℕ). get_infos j d new_info_wifi n₂) ns ∙ e₃ in
        let e₅' : get_infos (of_le number') d info n₄ ≡ some (some (clients, last), n₅) =
          ap (λ (j : ℕ). get_infos j d info n₄) nc ∙ e₅ in
        (
          _,
          bind_at _ _ n n₁ tt e₁
              ∙ (bind_at _ _ n₁ n₂ number e₂
                  ∙ (bind_at _ _ n₂ n₃ (spies, info) e₃'
                      ∙ (bind_at _ _ n₃ n₄ number' e₄
                          ∙ (bind_at _ _ n₄ n₅ (clients, last) e₅' ∙ bind_at _ _ n₅ _ tt refl)))),
        )

all_listed :
    (ss : List InfoSocket) (ws : List InfoWifi)
    → length ss ≡ length ws
    → All (λ (x : InfoSocket). x.enable ≡ true) ss
    → listed ss ws ≡ ws
all_listed [] [] n h = refl
all_listed [] (w ∷ ws) n h = absurd (omega (arith, n))
all_listed (s ∷ ss) [] n h = absurd (omega (arith, n))
all_listed (s ∷ ss) (w ∷ ws) n (e, h) =
    rw e (ap (λ (vs : List InfoWifi). w ∷ vs) (all_listed ss ws (omega (arith, n)) h))

-- Lists that can be told: each entry has its enabled client, and can be sent.
pub record IsListed (s : WifiServer) : Type 0 where
  pub paired : length s.info_sockets ≡ length s.info_wifis
  pub enabled : All (λ (x : InfoSocket). x.enable ≡ true) s.info_sockets
  pub sendable : All IsSendable s.info_wifis
  pub counted : length s.info_wifis < 2 ^ 32

list_bytes_lem :
    (s : WifiServer)
    → IsListed s
    → list_bytes s ≡ u32_bytes (length s.info_wifis) ++ infos_bytes s.info_wifis
list_bytes_lem s v =
    ap (λ (j : ℕ). u32_bytes j ++ infos_bytes (listed s.info_sockets s.info_wifis)) v.paired
    ∙ ap (λ (ws : List InfoWifi). u32_bytes (length s.info_wifis) ++ infos_bytes ws)
        (all_listed s.info_sockets s.info_wifis v.paired v.enabled)

-- The calls made once SendList is through.
abbrev pub calls_of_list : {p : Platform} → Server p → List Call
calls_of_list s = elim (send_list s) [ none ↦ [] | some (r, s') ↦ s'.net.calls ]

put_in_order : (a b c e : List ℕ) → (a ++ b) ++ (c ++ e) ≡ a ++ (b ++ (c ++ (e ++ [])))
put_in_order a b c e =
    append_assoc a b (c ++ e) ∙ ap (λ (bs : List ℕ). a ++ (b ++ (c ++ bs))) (sym (append-nil e))

answer_lem :
    (spies clients : WifiServer)
    → IsListed spies
    → IsListed clients
    → list_bytes spies ++ list_bytes clients
      ≡ u32_bytes (length spies.info_wifis)
        ++ (infos_bytes spies.info_wifis
            ++ (u32_bytes (length clients.info_wifis) ++ (infos_bytes clients.info_wifis ++ [])))
answer_lem spies clients vs vc =
    ap (λ (bs : List ℕ). bs ++ list_bytes clients) (list_bytes_lem spies vs)
    ∙ (ap
          (λ (bs : List ℕ).
            (u32_bytes (length spies.info_wifis) ++ infos_bytes spies.info_wifis) ++ bs)
          (list_bytes_lem clients vc)
        ∙ put_in_order (u32_bytes (length spies.info_wifis)) (infos_bytes spies.info_wifis)
            (u32_bytes (length clients.info_wifis)) (infos_bytes clients.info_wifis))

module _ {p q : Platform} (known : IsDocumented q) (stream : q.World → List ℕ)
    (net : Delivers q stream) where
  -- For a server whose spies and clients are all enabled, each with an entry that fits its
  -- variables and has no zero in its name, SendList succeeds, and AskList, where recv gives the
  -- bytes it is asked for out of those sent and sending takes none of them, shows exactly the
  -- entries of the spies and of the clients, in order.
  pub ask_list-send_list :
      (c d : ℕ) (socket : InfoSocket) (s : Server p) (n : Net q)
      → TakesAll p c
      → TakesAll q d
      → SendingKeeps q stream
      → get_elem? s.ctrl_sockets 0 ≡ some socket
      → socket.descriptor ≡ c
      → s.net.calls ≡ []
      → IsListed s.spies
      → IsListed s.clients
      → stream n.world ≡ bytes_sent c (calls_of_list s)
      → ((s' : Server p) × (send_list s ≡ some (some tt, s')))
        × ((n' : Net q) × (ask_list d n
              ≡ some (some (s.spies.info_wifis, s.clients.info_wifis), n')))
  ask_list-send_list c d socket s n takes takes' keeps e same fresh vs vc there =
      let (s', e', kept, b) = send_list-Says c takes socket s vs.paired vc.paired e same in
      let calls : calls_of_list s ≡ s'.net.calls = rw (e', calls_of_list) refl in
      let first : bytes_sent c s.net.calls ≡ [] = ap (bytes_sent c) fresh in
      (
        (s', e'),
        ask_list-Gets known stream net d takes' keeps s.spies.info_wifis s.clients.info_wifis [] n
            vs.counted vc.counted vs.sendable vc.sendable
            (there
              ∙ (ap (bytes_sent c) calls
                  ∙ (b
                      ∙ (ap (λ (bs : List ℕ). bs ++ (list_bytes s.spies ++ list_bytes s.clients))
                            first
                          ∙ answer_lem s.spies s.clients vs vc)))),
      )
