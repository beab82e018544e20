-- ===== src/WifiServer/Effects.antt =====
-- What a sending loop of cwifiserver.cc can do at most, on any network and with any losses.
mod Visits
pub use Visits.{SendsToSome, Tame}
use Visits.{each_client-TameList, send_or_disable-Tame, pass-Tame, send_unless_lost-Tame}
use vwifi.Prelude.{
  ℕ, ◌+◌, ◌≤◌, ◌<◌, ◌≡◌, ◌⊎◌, refl, ◌∙◌, Bool, false, Option, some, List, ◌∷◌, ◌++◌, arith,
  get_elem?_lt, if_split, ◌==◌, All,
}
use vwifi.Prelude.Int.{ℤ}
use vwifi.Platform.{Platform, Net, Call}
use vwifi.Info.{InfoSocket}
use vwifi.Wifi.{get_frequency}
use vwifi.WifiServer.{
  WifiServer, get_number_client, each_client, with_sockets, signal_level, level_at,
  send_all_clients_without_loss, send_all_other_clients_without_loss, send_all_other_clients,
}
use vwifi.WifiServer.Registry.{IsValid, descriptors}

module _ {p : Platform} where
  -- What a sending loop may do to the server, on any network.
  abbrev pub Keeps : (ℕ → Bool) → WifiServer → Net p → Option (WifiServer × Net p) → Type 0
  Keeps skip s n r =
      (s' : WifiServer) × (n' : Net p) × (cs : List Call) × (r ≡ some (s', n'))
      × IsValid s'
      × (descriptors s'.info_sockets ≡ descriptors s.info_sockets)
      × (get_number_client s' ≡ get_number_client s)
      × (s'.info_wifis ≡ s.info_wifis)
      × (n'.calls ≡ n.calls ++ cs)
      × All (SendsToSome skip 0 s.info_sockets) cs

  Keeps-of_Tame :
      (visit : ℕ → InfoSocket → Net p → Option (InfoSocket × Net p)) (skip : ℕ → Bool)
      (s : WifiServer) (n : Net p)
      → IsValid s
      → ((i : ℕ) (socket : InfoSocket) (n : Net p)
          → i < get_number_client s
          → Tame skip i socket n (visit i socket n))
      → Keeps skip s n (with_sockets s (each_client visit 0 s.info_sockets n))
  Keeps-of_Tame visit skip s n v law =
      let (ss, n', cs, e, d, l, c, a) =
        each_client-TameList visit skip (get_number_client s) law 0 s.info_sockets n
          (omega arith) in
      (
        record s { info_sockets = ss },
        n',
        cs,
        rw e,
        record {
          paired = l ∙ v.paired;
          room = v.room;
          bounded = v.bounded;
          names = v.names;
          names_deconnected = v.names_deconnected;
        },
        d,
        l,
        refl,
        c,
        a,
      )

  -- On any network, sending to all clients succeeds, keeps the lists well formed, the clients and
  -- their descriptors, and makes no call but to clients that are enabled.
  pub send_all_clients-Keeps :
      (power : ℤ) (bytes : List ℕ) (s : WifiServer) (n : Net p)
      → IsValid s
      → Keeps (λ i. false) s n (send_all_clients_without_loss power bytes s n)
  unfolding send_all_clients_without_loss
  send_all_clients-Keeps power bytes s n v =
      Keeps-of_Tame _ (λ i. false) s n v
        λ i socket n h.
          if_split (Tame (λ i. false) i socket n) socket.enable
            (λ on. send_or_disable-Tame (λ i. false) i power bytes socket n on refl)
            (λ _. pass-Tame (λ i. false) i socket n)

  -- The same of sending to the others without loss: no call is to the sender.
  pub send_all_other_clients-Keeps :
      (index : ℕ) (power : ℤ) (bytes : List ℕ) (s : WifiServer) (n : Net p)
      → IsValid s
      → Keeps (λ i. i == index) s n (send_all_other_clients_without_loss index power bytes s n)
  unfolding send_all_other_clients_without_loss
  send_all_other_clients-Keeps index power bytes s n v =
      let skip = λ (i : ℕ). i == index in
      Keeps-of_Tame _ skip s n v λ i socket n h.
        if_split (Tame skip i socket n) (i == index) (λ _. pass-Tame skip i socket n)
          (λ other.
            if_split (Tame skip i socket n) socket.enable
              (λ on. send_or_disable-Tame skip i power bytes socket n on other)
              (λ _. pass-Tame skip i socket n))

  -- On any network and whether packets can be lost or not, SendAllOtherClients from a client that
  -- exists, in well-formed lists and with a message of which GetFrequency gives the frequency,
  -- succeeds, keeps the clients and their descriptors, and makes no call to the sender or to a
  -- client that is not enabled.
  pub send_all_other_clients_lossy-Keeps :
      (scale : p.Real) (can_lose : Bool) (index : ℕ) (power : ℤ) (bytes : List ℕ) (s : WifiServer)
      (n : Net p) (frequency : ℕ)
      → IsValid s
      → index < get_number_client s
      → get_frequency p bytes ≡ some frequency
      → Keeps (λ i. i == index) s n (send_all_other_clients scale can_lose index power bytes s n)
  unfolding send_all_other_clients signal_level
  send_all_other_clients_lossy-Keeps scale can_lose index power bytes s n frequency v h parsed =
      let skip = λ (i : ℕ). i == index in
      let (sender, e) = get_elem?_lt s.info_wifis index (omega (arith, v.paired)) in
      rw e (
        Keeps-of_Tame _ skip s n v λ i socket n h.
          if_split (Tame skip i socket n) (i == index) (λ _. pass-Tame skip i socket n)
            (λ other.
              if_split (Tame skip i socket n) socket.enable
                (λ on.
                  let (w, ew) = get_elem?_lt s.info_wifis i (omega (arith, v.paired)) in
                  rw (ew, parsed)
                    (send_unless_lost-Tame skip i can_lose
                      (level_at p scale power frequency sender.coordinate w) bytes socket n on
                      other))
                (λ _. pass-Tame skip i socket n)))
