-- ===== src/Examples/Parts.antt =====
-- The theorems on the smaller parts of the program, at work on single values.
use vwifi.Prelude.{
  ℕ, ◌+◌, ◌*◌, ◌≡◌, ◌↔◌, refl, true, false, not, none, ◌==◌, if◌then◌else◌, some, List, [], ◌∷◌,
  arith,
}
use vwifi.Prelude.Int.{pos, negsuc, ◌-ℤ◌}
use vwifi.Platform.{SockaddrIn, Net}
use vwifi.Tools.{octet, hash_ipaddr, is_int_or_float}
use vwifi.Tools.Hash.{hash_ipaddr_iff}
use vwifi.Tools.Words.{is_number, without_sign, is_int_or_float_lem}
use vwifi.Select.{init, add_node, del_node}
use vwifi.Select.Maximum.{init-IsValid, add_node-IsValid, del_node-IsValid}
use vwifi.Select.Maximum
use vwifi.Info.{Coordinate, square_distance_int}
use vwifi.Info.Distance.{magnitude, square_distance_int-exact}
use vwifi.Socket.{DynBuffer}
use vwifi.Wifi.{recv_signal}
use vwifi.Wifi.Signal.{Received, recv_signal_total}
use vwifi.CommandLine.{default_server}
use vwifi.MainLoop.Running.{Runs}
use vwifi.Listening.{ListenKernel, open_servers, vwifi_server}
use vwifi.Listening.Opened.{Opens, asked_for, AllListen, open_servers-Opens, vwifi_server-Runs}
use vwifi.WifiServer.Owned.{Holder, Lists, object, copy_server, destroy_server}
use vwifi.WifiServer.Copied.{Owns, copy_server-Owns}
use vwifi.Examples.Network.{wired, wired-TerminatesNames, wired-HasCids, wired-ParsesMessages}

node_added : Maximum.IsValid (add_node 8 init)
unfolding init
node_added = add_node-IsValid 8 init init-IsValid refl

del_node-IsValid_example : Maximum.IsValid (del_node 8 (add_node 8 init))
del_node-IsValid_example = del_node-IsValid 8 (add_node 8 init) node_added

abbrev small_buffer : DynBuffer
small_buffer = record { buffer = 1 ∷ 2 ∷ []; size = 2 }

recv_signal_total_example : Received wired (recv_signal wired 5 (pos 0) small_buffer 3)
recv_signal_total_example = recv_signal_total wired 5 (pos 0) small_buffer 3

abbrev here : Coordinate
here = record { x = pos 3; y = negsuc 0; z = pos 0 }

abbrev there : Coordinate
there = record { x = pos 0; y = pos 3; z = pos 12 }

square_distance_int-exact_example :
    square_distance_int here there
    ≡ pos (
        magnitude (here.x -ℤ there.x) * magnitude (here.x -ℤ there.x)
        + magnitude (here.y -ℤ there.y) * magnitude (here.y -ℤ there.y)
        + magnitude (here.z -ℤ there.z) * magnitude (here.z -ℤ there.z))
square_distance_int-exact_example =
    square_distance_int-exact here there (omega arith, omega arith, omega arith)
      (omega arith, omega arith, omega arith)

-- An entry for a CID that no list has yet is put into the memory of 15 entries.
abbrev address : ℕ → ℕ → ℕ → ℕ → SockaddrIn
address a b c d = record { s_addr = a + 256 * (b + 256 * (c + 256 * d)); sin_port = 80 }

-- 10.0.1.2 and 10.0.2.1 have the same CID.
hash_ipaddr_iff_example :
    (hash_ipaddr false (address 10 0 1 2) ≡ hash_ipaddr false (address 10 0 2 1)) ↔ (
      (octet (address 10 0 1 2).s_addr 0 ≡ octet (address 10 0 2 1).s_addr 0)
      × (octet (address 10 0 1 2).s_addr 1
            + octet (address 10 0 1 2).s_addr 2
            + octet (address 10 0 1 2).s_addr 3
          ≡ octet (address 10 0 2 1).s_addr 1
            + octet (address 10 0 2 1).s_addr 2
            + octet (address 10 0 2 1).s_addr 3))
hash_ipaddr_iff_example = hash_ipaddr_iff (address 10 0 1 2) (address 10 0 2 1)

-- The word -1.5
abbrev word : List ℕ
word = b'-' ∷ b'1' ∷ b'.' ∷ b'5' ∷ []

is_int_or_float_lem_example : is_int_or_float word ≡ is_number (without_sign word)
is_int_or_float_lem_example = is_int_or_float_lem word

-- A kernel on which a socket can be had from the second moment on, and port 8213 is taken.
abbrev sockets : ListenKernel wired
sockets = record {
  socket = λ f w. (if w == 0 then none else some (2 + w), 1 + w);
  set_option = λ d option w. (true, w);
  bind = λ d f port w. (not (port == 8213), w);
  listen = λ d n w. (true, w);
}

open_servers-Opens_example :
    Opens sockets
      (asked_for sockets default_server)
      (AllListen sockets default_server)
      []
      (open_servers sockets default_server (record { world = 1; calls = [] }))
open_servers-Opens_example =
    open_servers-Opens sockets default_server (record { world = 1; calls = [] })

vwifi_server-Runs_example : Runs (vwifi_server sockets 2 default_server 1 1)
vwifi_server-Runs_example =
    vwifi_server-Runs sockets wired-TerminatesNames wired-HasCids wired-ParsesMessages 2
      default_server 1 1

-- A server that manages its lists: one client, and no memory of others.
abbrev owner : Holder
owner = record {
  master = pos 3;
  port = 8213;
  list_info_self_managed = true;
  info_sockets = object 0;
  max_client_deconnected = 1;
  info_wifis = object 0;
  info_wifis_deconnected = object 1;
}

abbrev own_lists : Lists
own_lists = record {
  sockets = record {
    objects = λ a. if a == 0 then some (record { descriptor = 6; enable = true } ∷ []) else none;
    variables = λ a. [];
    next = 1;
  };
  wifis = record {
    objects = λ a.
        if a == 0
        then some (record { coordinate = here; cid = 9; name = [] } ∷ [])
        else if a == 1
        then some []
        else none;
    variables = λ a. [];
    next = 2;
  };
}

abbrev OneClient : Holder → Lists → Type 0
OneClient o s =
    Owns o s (record { descriptor = 6; enable = true } ∷ [])
      (record { coordinate = here; cid = 9; name = [] } ∷ []) []

own_lists-Owns : OneClient owner own_lists
own_lists-Owns = record {
  managed = refl;
  sockets = 0;
  wifis = 0;
  deconnected = 1;
  at_sockets = refl;
  at_wifis = refl;
  at_deconnected = refl;
  holds_sockets = refl;
  holds_wifis = refl;
  holds_deconnected = refl;
  made_sockets = omega arith;
  made_wifis = omega arith;
  made_deconnected = omega arith;
}

copy_server-Owns_example :
    (o : Holder) × (s : Lists) × (copy_server owner own_lists ≡ some (o, s))
    × OneClient o s
    × OneClient owner s
    × ((s' : Lists) × (n : Net wired) × (destroy_server o s (record { world = 3; calls = [] })
          ≡ some (s', n))
        × OneClient owner s')
copy_server-Owns_example =
    copy_server-Owns owner own_lists _ _ _ (record { world = 3; calls = [] }) own_lists-Owns
