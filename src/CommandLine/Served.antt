-- ===== src/CommandLine/Served.antt =====
-- From the words that vwifi-ctrl.cc is given to what becomes of the server in cctrlserver.cc.
use vwifi.Prelude.{
  ℕ, ◌<◌, ◌^◌, ◌≡◌, refl, ap, ◌∙◌, Bool, true, Option, none, some, ◌>>=◌, List, [], ◌∷◌, ◌++◌,
  length, get_elem?,
}
use vwifi.Prelude.Int.{pos, pos_part}
use vwifi.Platform.{Platform, IsDocumented, Net, Call}
use vwifi.Info.{InfoSocket}
use vwifi.Kernel.{Kernel}
use vwifi.Client.{SocketClient, init_itcp, connect_loop}
use vwifi.Socket.Sent.{bytes_sent, TakesAll}
use vwifi.Server.{Server}
use vwifi.Ctrl.{serve_order}
use vwifi.CtrlClient.{Ask}
use vwifi.CtrlClient
use vwifi.Commands.{Command, ask, command_bytes, obey, hang_up}
use vwifi.Commands.Said.{ask-Asks}
use vwifi.Commands.Obeyed.{Arrives, at}
use vwifi.Commands.Served.{serve_order-Obeys}
use vwifi.CommandLine.{Parsed, runs, codes}
use vwifi.CommandLine.Decimal.{decimal}
use vwifi.CommandLine.Orders.{
  CtrlOptions, Shown, nothing, change, destroys, on_connection, run_request, displays, returned,
  vwifi_ctrl,
}
use vwifi.CommandLine.Typed.{Types, IsCarried-Types, vwifi_ctrl-Types}

-- The calls that vwifi-ctrl has made when it ends.
abbrev pub calls_of : {q : Platform} → Option (Parsed (Shown q) × Net q) → List Call
calls_of none = []
calls_of (some (ret, n)) = n.calls

displays-some :
    {q : Platform} {A : Type 0}
    → (shown : A → Shown q) (asked : Ask q A) (a : A) (n n' : Net q) → asked n ≡ some (some a, n')
    → displays shown asked n ≡ some (some (shown a), n')
unfolding CtrlClient.◌>>=◌
displays-some shown asked a n n' e = rw (e, CtrlClient.◌>>=◌) refl

module _ {q : Platform} (k : Kernel q) (inet_addr : List ℕ → ℕ) (htons : ℕ → ℕ)
    (atof : List ℕ → q.Real) (at_most_zero : q.Real → Bool) where
  run_request-Asks :
      (c : Command q) (o : CtrlOptions) (fuel d : ℕ) (n n₁ : Net q) (client : SocketClient)
      → connect_loop k fuel (init_itcp (inet_addr o.ip_ctrl) (htons o.port_ctrl)) n
        ≡ some (true, client, n₁)
      → client.master ≡ pos d
      → TakesAll q d
      → (n₂ : Net q) × (run_request k inet_addr htons atof at_most_zero fuel o (change c) n
          ≡ some (some nothing, n₂))
        × (bytes_sent d n₂.calls ≡ bytes_sent d n₁.calls ++ command_bytes c)
  unfolding run_request on_connection
  run_request-Asks c o fuel d n n₁ client e m takes =
      let (n₂, e₂, b) = ask-Asks d takes c n₁ in
      let there : ask (pos_part client.master) c n₁ ≡ some (some tt, n₂) = rw m e₂ in
      (
        n₂,
        rw e (
            ap (destroys k inet_addr htons atof at_most_zero (pos_part client.master))
              (displays-some (λ _. nothing) (ask (pos_part client.master) c) tt n₁ n₂ there)),
        b,
      )

  module _ {p : Platform} (known : IsDocumented p) (socket : InfoSocket) (stream : p.World → List ℕ)
      (net : Arrives p socket.descriptor stream) where
    -- For an order of vwifi-ctrl that places or names a client, sets the loss of packets or the
    -- scale or closes all clients, whose words are typed in decimal within int, with a CID of a
    -- guest, a name that is no option, and a scale that the tests take, behind an address and a
    -- port of 16 bits: where ConnectLoop to this address and port gives a descriptor that takes
    -- all bytes and over which none were sent, vwifi-ctrl returns 0, and a server with the one
    -- control connection over which exactly the bytes sent arrive, where recv gives of what is
    -- left as much as it is asked for, does to its state just what the order stands for, of a name
    -- at most its first 12 bytes, and closes the connection.
    pub serve_order-vwifi_ctrl :
        (c : Command q) (words : List (List ℕ)) (ip : List ℕ) (port fuel d : ℕ) (n n₁ : Net q)
        (client : SocketClient) (s : Server p)
        → Types atof at_most_zero c words
        → port < 2 ^ 16
        → connect_loop k fuel (init_itcp (inet_addr ip) (htons port)) n ≡ some (true, client, n₁)
        → client.master ≡ pos d
        → TakesAll q d
        → bytes_sent d n₁.calls ≡ []
        → length s.ctrl_sockets ≡ 1
        → get_elem? s.ctrl_sockets 0 ≡ some socket
        → stream s.net.world
          ≡ bytes_sent d (
              calls_of (
                vwifi_ctrl k inet_addr htons atof at_most_zero fuel
                  (codes "-i" ∷ ip ∷ codes "-p" ∷ decimal port ∷ words)
                  n))
        → ((n₂ : Net q) × (vwifi_ctrl k inet_addr htons atof at_most_zero fuel
                (codes "-i" ∷ ip ∷ codes "-p" ∷ decimal port ∷ words)
                n
              ≡ some (runs nothing, n₂)))
          × ((w : p.World) × (serve_order s ≡ hang_up (obey c (at w s))))
    serve_order-vwifi_ctrl c words ip port fuel d n n₁ client s t lt e m takes fresh one e' there =
        let o : CtrlOptions = record { ip_ctrl = ip; port_ctrl = port } in
        let (n₂, e₂, b) = run_request-Asks c o fuel d n n₁ client e m takes in
        let typed =
          vwifi_ctrl-Types k inet_addr htons atof at_most_zero c words ip port fuel n t lt in
        let ends =
          typed
          ∙ ap (λ x. x >>= λ answer. some (returned k inet_addr htons atof at_most_zero answer))
              e₂ in
        let bytes =
          there
          ∙ (ap (λ x. bytes_sent d (calls_of x)) ends
              ∙ (b ∙ ap (λ (bs : List ℕ). bs ++ command_bytes c) fresh)) in
        (
          (n₂, ends),
          serve_order-Obeys known socket stream net q c s one e'
              (IsCarried-Types k inet_addr htons atof at_most_zero c words t) bytes,
        )
