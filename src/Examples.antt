-- ===== src/Examples.antt =====
-- The theorems at work on small servers over a concrete network.
pub mod Network
pub mod Parts
pub mod Streamed
pub mod Radios
pub mod Machine
pub mod Rounds
pub mod Typing
pub mod Interrupting
use vwifi.Prelude.{
  ℕ, ◌+◌, ◌≤◌, ◌<◌, ◌≡◌, ◌↔◌, refl, inl, inr, Bool-cases, ltb, ltb→lt, count, true, false, some,
  List, [], ◌∷◌, ◌++◌, arith, if◌then◌else◌, ◌==◌,
}
use vwifi.Prelude.Int.{pos, negsuc, ◌≤ℤ◌, ◌-ℤ◌}
use vwifi.Platform.{Net}
use vwifi.Select.{Select}
use vwifi.Select.Nodes.{WatchesNodes}
use vwifi.Select.Maximum
use vwifi.Info.{Coordinate, InfoWifi, InfoSocket}
use vwifi.Socket.{DynBuffer}
use vwifi.Wifi.{get_frequency}
use vwifi.WifiServer.{
  WifiServer, accept, close_client, close_all_client, send_all_clients_without_loss, find_cid,
  send_all_other_clients_without_loss, send_all_other_clients,
}
use vwifi.WifiServer.Registry.{AcceptsTo, accept-IsValid}
use vwifi.WifiServer.Registry
use vwifi.WifiServer.Closing.{
  ClosesTo, ClosesAllTo, close_client-IsValid, close_all_client-ClosesAllTo,
}
use vwifi.WifiServer.Reconnect.{CountsAfter, count_enabled-accept, accept-close_client}
use vwifi.WifiServer.Effects.{Keeps, send_all_other_clients_lossy-Keeps}
use vwifi.WifiServer.Sending.{SendsTo, send_all_clients-SendsTo, send_all_other_clients-SendsTo}
use vwifi.WifiServer.Lossy.{level_of, send_all_other_clients_lossy-SendsTo}
use vwifi.Server.{Endpoints, Server, Relay, forward_data}
use vwifi.Server.Forward.{Ends, forward_data-Ends}
use vwifi.Server.Forward
use vwifi.Server.Sound.{Continues}
use vwifi.Server.Sound
use vwifi.Ctrl.{receive_order}
use vwifi.Ctrl.Serving.{receive_order-IsSound}
use Network.{wired, up, wired-Answers, wired-TerminatesNames, wired-ParsesMessages}

abbrev place_of : ℕ → Coordinate
place_of n = record { x = pos n; y = negsuc n; z = pos 0 }

abbrev client : ℕ → InfoWifi
client cid = record { coordinate = place_of cid; cid = cid; name = 65 ∷ 66 ∷ [] }

abbrev socket_of : ℕ → InfoSocket
socket_of d = record { descriptor = d; enable = true }

-- Clients 7 and 8 on descriptors 5 and 9, of which 9 cannot be reached.
abbrev two_clients : WifiServer
two_clients = record {
  max_client_deconnected = 2;
  info_sockets = socket_of 5 ∷ socket_of 9 ∷ [];
  info_wifis = client 7 ∷ client 8 ∷ [];
  info_wifis_deconnected = client 4 ∷ [];
}

two_clients-IsValid : Registry.IsValid two_clients
two_clients-IsValid = record {
  paired = refl;
  room = omega arith;
  bounded = omega arith;
  names = (omega arith, (omega arith, tt));
  names_deconnected = (omega arith, tt);
}

abbrev one_spy : WifiServer
one_spy = record {
  max_client_deconnected = 1;
  info_sockets = socket_of 6 ∷ [];
  info_wifis = client 9 ∷ [];
  info_wifis_deconnected = [];
}

one_spy-IsValid : Registry.IsValid one_spy
one_spy-IsValid = record {
  paired = refl;
  room = omega arith;
  bounded = omega arith;
  names = (omega arith, tt);
  names_deconnected = tt;
}

abbrev net : Net wired
net = record { world = 3; calls = [] }

abbrev buffer : DynBuffer
buffer = record { buffer = 1 ∷ 2 ∷ []; size = 2 }

abbrev all_ready : List ℕ → Select
all_ready nodes = record {
  master = λ d. ltb 0 (count d nodes);
  dup = λ d. true;
  max_descriptor = pos 9;
  list_nodes = nodes;
  intact = true;
}

abbrev endpoints : Endpoints
endpoints = record { vtcp = 1; itcp = 2; spy = 3; ctrl = 4; port_vtcp = 8211; port_itcp = 8212 }

abbrev relay : Relay wired
relay = record {
  src = two_clients;
  other_dst = one_spy;
  scheduler = all_ready (5 ∷ 9 ∷ 6 ∷ []);
  buffer = buffer;
  net = net;
}

abbrev server : Server wired
server = record {
  endpoints = endpoints;
  clients = two_clients;
  spies = one_spy;
  ctrl_sockets = [];
  scheduler = all_ready (1 ∷ 2 ∷ 3 ∷ 4 ∷ 5 ∷ 9 ∷ 6 ∷ []);
  buffer = buffer;
  can_lost_packets = true;
  hash_uses_port = false;
  scale = 1;
  net = net;
}

server-IsSound : Sound.IsSound true 0 server
server-IsSound = record {
  clients_valid = two_clients-IsValid;
  spies_valid = one_spy-IsValid;
  orders = refl;
  balanced = λ d. omega arith;
  watched = record {
    distinct = λ d. ground arith;
    watched = λ d. refl;
    highest = record { above = λ d h. ground arith; reached = inr (9, refl, omega arith) };
  };
}

receive_order-IsSound_example : Continues true 0 (receive_order server)
receive_order-IsSound_example = receive_order-IsSound wired-TerminatesNames server server-IsSound

relay-IsSound : Forward.IsSound true (λ d. 0) relay
relay-IsSound = record {
  src_valid = two_clients-IsValid;
  dst_valid = one_spy-IsValid;
  balanced = λ d. omega arith;
  watched = record {
    distinct = λ d. ground arith;
    watched = λ d. refl;
    highest = record { above = λ d h. ground arith; reached = inr (9, refl, omega arith) };
  };
}

forward_data-Ends_example : Ends true (λ d. 0) (forward_data 1 true false relay)
forward_data-Ends_example =
    forward_data-Ends true (λ d. 0) wired-ParsesMessages 1 true false relay relay-IsSound

send_all_other_clients_lossy-SendsTo_example :
    SendsTo up
      (λ i socket. if i == 0 then false else socket.enable)
      (level_of wired 1 (negsuc 29) 2412 (client 7) two_clients.info_wifis)
      []
      two_clients
      net
      (send_all_other_clients 1 false 0 (negsuc 29) [] two_clients net)
unfolding get_frequency
send_all_other_clients_lossy-SendsTo_example =
    send_all_other_clients_lossy-SendsTo up wired-Answers 1 0 (negsuc 29) [] two_clients net
      (client 7) 2412 two_clients-IsValid refl refl

close_client-IsValid_example : ClosesTo 1 two_clients net (close_client 1 two_clients net)
close_client-IsValid_example =
    close_client-IsValid 1 two_clients net two_clients-IsValid (omega arith)

accept-IsValid_example : AcceptsTo 10 two_clients (accept 10 7 two_clients)
accept-IsValid_example = accept-IsValid 10 7 two_clients two_clients-IsValid (inr (omega arith))

accept-close_client_example :
    (s₁ s₂ : WifiServer) × (n₁ : Net wired) × (close_client 0 two_clients net ≡ some (s₁, n₁))
    × (accept 10 7 s₁ ≡ some s₂)
    × (s₂.info_wifis ≡ client 8 ∷ client 7 ∷ [])
    × (s₂.info_wifis_deconnected ≡ client 4 ∷ [])
unfolding find_cid
accept-close_client_example =
    accept-close_client 0 10 two_clients net (client 7) two_clients-IsValid (omega arith) refl
      (inr (omega arith)) refl

count_enabled-accept_example : CountsAfter 7 7 two_clients (accept 10 7 two_clients)
count_enabled-accept_example =
    count_enabled-accept 10 7 7 two_clients two_clients-IsValid (inr (omega arith))

close_all_client-ClosesAllTo_example :
    ClosesAllTo two_clients net (close_all_client two_clients net)
close_all_client-ClosesAllTo_example =
    close_all_client-ClosesAllTo two_clients net two_clients-IsValid

send_all_clients-SendsTo_example :
    SendsTo up
      (λ i socket. socket.enable)
      (λ i. negsuc 29)
      (1 ∷ [])
      two_clients
      net
      (send_all_clients_without_loss (negsuc 29) (1 ∷ []) two_clients net)
send_all_clients-SendsTo_example =
    send_all_clients-SendsTo up wired-Answers (negsuc 29) (1 ∷ []) two_clients net

send_all_other_clients-SendsTo_example :
    SendsTo up
      (λ i socket. if i == 1 then false else socket.enable)
      (λ i. negsuc 29)
      (1 ∷ [])
      two_clients
      net
      (send_all_other_clients_without_loss 1 (negsuc 29) (1 ∷ []) two_clients net)
send_all_other_clients-SendsTo_example =
    send_all_other_clients-SendsTo up wired-Answers 1 (negsuc 29) (1 ∷ []) two_clients net

send_all_other_clients_lossy-Keeps_example :
    Keeps
      (λ i. i == 0)
      two_clients
      net
      (send_all_other_clients 1 true 0 (negsuc 29) (1 ∷ []) two_clients net)
unfolding get_frequency
send_all_other_clients_lossy-Keeps_example =
    send_all_other_clients_lossy-Keeps 1 true 0 (negsuc 29) (1 ∷ []) two_clients net 2412
      two_clients-IsValid (omega arith) refl

abbrev with_order : Server wired
with_order = record server { ctrl_sockets = socket_of 8 ∷ [] }
