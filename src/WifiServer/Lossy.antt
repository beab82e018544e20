-- ===== src/WifiServer/Lossy.antt =====
-- Who is sent a signal by SendAllOtherClients of cwifiserver.cc while no packet can be lost, and at
-- which power.
use vwifi.Prelude.{
  ℕ, ◌≡◌, ◌<◌, Bool, false, Option, none, some, ◌>>=◌, List, arith, length, get_elem?, get_elem?_lt,
  ◌==◌, if◌then◌else◌,
}
use vwifi.Prelude.Int.{ℤ, pos}
use vwifi.Platform.{Platform, Net}
use vwifi.Info.{InfoWifi, InfoSocket}
use vwifi.WifiServer.{WifiServer, send_unless_lost, send_all_other_clients, signal_level, level_at}
use vwifi.Wifi.{get_frequency}
use vwifi.WifiServer.Registry
use vwifi.WifiServer.Sending.{
  Answers, SendsTo, SendsTo-of_Visits, Visits, reached, reaching, visit_unless,
}

-- The level at which client `i` hears the sender, at a frequency.
abbrev pub level_of : (p : Platform) → p.Real → ℤ → ℕ → InfoWifi → List InfoWifi → ℕ → ℤ
level_of p scale power frequency sender ws i = elim (get_elem? ws i) [
  | none ↦ pos 0
  | some w ↦ level_at p scale power frequency sender.coordinate w
]

-- The round of the loop.
abbrev visit :
    (p : Platform)
    → p.Real
    → ℕ
    → ℤ
    → List ℕ
    → InfoWifi
    → List InfoWifi
    → ℕ
    → InfoSocket
    → Net p
    → Option (InfoSocket × Net p)
visit p scale index power bytes sender ws i socket n =
    if i == index
    then some (socket, n)
    else if socket.enable
    then (do
      w ← get_elem? ws i
      level ← signal_level p scale power bytes sender.coordinate w
      some (send_unless_lost false level bytes socket n))
    else some (socket, n)

module _ {p : Platform} where
  visit-Visits :
      (up : ℕ → Bool) (net : Answers p up) (scale : p.Real) (index : ℕ) (power : ℤ) (bytes : List ℕ)
      (ws : List InfoWifi) (sender : InfoWifi) (frequency : ℕ) (i : ℕ) (socket : InfoSocket)
      (n : Net p)
      → get_frequency p bytes ≡ some frequency
      → i < length ws
      → Visits {p = p}
          (reached up (λ i socket. if i == index then false else socket.enable))
          (reaching up
            (λ i socket. if i == index then false else socket.enable)
            (level_of p scale power frequency sender ws)
            bytes)
          i
          socket
          n
          (visit p scale index power bytes sender ws i socket n)
  unfolding send_unless_lost signal_level
  visit-Visits up net scale index power bytes ws sender frequency i socket n parsed h =
      let (w, e) = get_elem?_lt ws i h in
      rw (e, parsed, level_of)
        (visit_unless {p = p} up net (i == index) socket.enable
          (level_at p scale power frequency sender.coordinate w) bytes socket n)

  -- On a network where a descriptor takes all or nothing, from well-formed lists, a sender that
  -- exists and a message of which GetFrequency gives the frequency, while no packet can be lost:
  -- the enabled clients other than the sender, and no others, are sent the signal, each at the
  -- level that its place gives; those that cannot be reached are disabled.
  pub send_all_other_clients_lossy-SendsTo :
      (up : ℕ → Bool) (net : Answers p up) (scale : p.Real) (index : ℕ) (power : ℤ) (bytes : List ℕ)
      (s : WifiServer) (n : Net p) (sender : InfoWifi) (frequency : ℕ)
      → Registry.IsValid s
      → get_elem? s.info_wifis index ≡ some sender
      → get_frequency p bytes ≡ some frequency
      → SendsTo up
          (λ i socket. if i == index then false else socket.enable)
          (level_of p scale power frequency sender s.info_wifis)
          bytes
          s
          n
          (send_all_other_clients scale false index power bytes s n)
  unfolding send_all_other_clients
  send_all_other_clients_lossy-SendsTo up net scale index power bytes s n sender frequency v e
        parsed =
      rw (e, send_all_other_clients)
        (SendsTo-of_Visits {p = p} up (λ i socket. if i == index then false else socket.enable)
          (level_of p scale power frequency sender s.info_wifis) bytes s n
          (visit p scale index power bytes sender s.info_wifis)
          (λ i socket n h.
            visit-Visits up net scale index power bytes s.info_wifis sender frequency i socket n
              parsed (omega (arith, v.paired))))
