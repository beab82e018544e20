-- ===== src/Examples/Streamed.antt =====
-- A peer whose bytes are known, for the examples on what vwifi-ctrl reads.
use mathlib.Core.Path.{subst}
use mathlib.Core.Option.{some-injective}
use vwifi.Prelude.{
  ℕ, zero, suc, ◌≤◌, ◌≡◌, refl, ap, sym, inr, true, false, some, none, List, [], ◌∷◌, ◌++◌, arith,
  length, length-take, replicate, take, drop,
}
use vwifi.Prelude.Int.{pos, negsuc}
use vwifi.Platform.{Platform, IsDocumented, Net}
use vwifi.Info.{InfoWifi}
use vwifi.Prelude.Slices.{take-drop}
use vwifi.Prelude.Bytes.{of_le}
use vwifi.Socket.{DynBuffer, read_equal_size}
use vwifi.Socket.Sent.{bytes_sent}
use vwifi.Socket.Pieces.{Pieces, IsBuffer, read_equal_size-Reads}
use vwifi.Wifi.{send_signal}
use vwifi.Wifi.Carried.{IsMessage, Receives, recv_signal-send_signal}
use vwifi.Server.{Server}
use vwifi.Ctrl.{send_list}
use vwifi.CtrlClient.{ask_list}
use vwifi.CtrlClient.Bytes.{IsSendable}
use vwifi.CtrlClient.Answers.{Delivers}
use vwifi.CtrlClient.Shown.{calls_of_list, ask_list-send_list}
use vwifi.Examples.Network.{wired}

abbrev pub streamed : Platform
streamed = record {
  World = List ℕ;
  send = λ d bytes w. (some (length bytes), w);
  recv = λ d n w. (some (take n w), drop n w);
  close = λ d w. w;
  accept_inet = λ d w. (none, w);
  accept_vsock = λ d w. (none, w);
  pselect = λ n set w. (pos 0, false, set, w);
  rand = λ w. (0, w);
  uninit = λ n w. replicate n 170;
  frequency_attr = wired.frequency_attr;
  Real = ℕ;
  ratio = wired.ratio;
  of_int = wired.of_int;
  add = wired.add;
  sub = wired.sub;
  mul = wired.mul;
  sqrt = wired.sqrt;
  log10 = wired.log10;
  is_zero = wired.is_zero;
  truncate = wired.truncate;
  to_bytes = wired.to_bytes;
  of_bytes = wired.of_bytes;
}

length-replicate : (n b : ℕ) → length (replicate n b) ≡ n
length-replicate zero b = refl
length-replicate (suc n) b = ap suc (length-replicate n b)

pub streamed-IsDocumented : IsDocumented streamed
streamed-IsDocumented = record {
  recv_bound = λ d n w bs e.
      subst (λ (x : List ℕ). length x ≤ n) (some-injective (take n w) bs e)
        (omega (arith, length-take n w));
  uninit_size = λ n w. length-replicate n 170;
}

streamed-Delivers : Delivers streamed (λ w. w)
streamed-Delivers d n w h = (refl, refl)

abbrev entry : InfoWifi
entry = record {
  coordinate = record { x = pos 300; y = negsuc 5; z = pos 0 };
  cid = 1000;
  name = 65 ∷ 66 ∷ [];
}

entry-IsSendable : IsSendable entry
entry-IsSendable = record {
  cid = inr (omega arith);
  cid_size = omega arith;
  x_size = (omega arith, omega arith);
  y_size = (omega arith, omega arith);
  z_size = (omega arith, omega arith);
  name_size = omega arith;
  name_bytes = (omega arith, (omega arith, tt));
}

abbrev hears : List ℕ → Net streamed
hears bytes = record { world = bytes; calls = [] }

-- All that is there comes with one call, if it is asked for.
streamed-Pieces : (d : ℕ) → Pieces streamed d (λ w. w)
streamed-Pieces d n w h k = (
  take n w,
  omega (arith, length-take n w),
  omega (arith, length-take n w),
  refl,
  sym (take-drop n w),
)

abbrev some_bytes : DynBuffer
some_bytes = record { buffer = 1 ∷ 2 ∷ []; size = 2 }

read_equal_size-Reads_example :
    (b : DynBuffer) × (w : List ℕ) × (read_equal_size streamed 5 some_bytes 1
        (pos 4)
        (3 ∷ 4 ∷ 5 ∷ 6 ∷ [])
      ≡ some (pos 4, b, w))
    × IsBuffer b
    × (4 ≤ b.size)
    × (take 4 b.buffer ≡ 1 ∷ 3 ∷ 4 ∷ 5 ∷ [])
    × (w ≡ 6 ∷ [])
read_equal_size-Reads_example =
    read_equal_size-Reads streamed streamed-IsDocumented 5 (λ w. w) (streamed-Pieces 5) some_bytes 1
      4 (3 ∷ 4 ∷ 5 ∷ 6 ∷ []) refl (omega arith) (omega arith) (omega arith)

-- A message of 20 bytes, which its header tells.
abbrev frame : List ℕ
frame = 20 ∷ 0 ∷ 0 ∷ 0 ∷ replicate 16 9

frame-IsMessage : IsMessage frame
unfolding of_le
frame-IsMessage = record { headed = omega arith; fits = omega arith; measured = refl }

recv_signal-send_signal_example :
    Receives streamed streamed-IsDocumented 5
      (λ w. w)
      (streamed-Pieces 5)
      (negsuc 39)
      frame
      (7 ∷ [])
      (pos 0)
      some_bytes
      (bytes_sent 8 (send_signal streamed 8 (negsuc 39) frame (hears [])).1.calls ++ 7 ∷ [])
recv_signal-send_signal_example =
    recv_signal-send_signal streamed streamed-IsDocumented 5 (λ w. w) (streamed-Pieces 5) streamed 8
      (λ bytes w. refl) (negsuc 39) frame (7 ∷ []) (hears []) (pos 0) some_bytes
      (bytes_sent 8 (send_signal streamed 8 (negsuc 39) frame (hears [])).1.calls ++ 7 ∷ [])
      (omega arith, omega arith) frame-IsMessage refl refl refl

abbrev pub listening : ℕ → List ℕ → Server streamed
listening d bytes = record {
  endpoints = record { vtcp = 1; itcp = 2; spy = 3; ctrl = 4; port_vtcp = 8211; port_itcp = 8212 };
  clients = record {
    max_client_deconnected = 15;
    info_sockets = record { descriptor = 5; enable = true } ∷ [];
    info_wifis = entry ∷ [];
    info_wifis_deconnected = [];
  };
  spies = record {
    max_client_deconnected = 1;
    info_sockets = [];
    info_wifis = [];
    info_wifis_deconnected = [];
  };
  ctrl_sockets = record { descriptor = d; enable = true } ∷ [];
  scheduler = record {
    master = λ x. false;
    dup = λ x. false;
    max_descriptor = negsuc 0;
    list_nodes = [];
    intact = true;
  };
  buffer = some_bytes;
  can_lost_packets = true;
  hash_uses_port = false;
  scale = 1;
  net = hears bytes;
}

-- vwifi-ctrl shows the one client of the server, and no spy.
ask_list-send_list_example :
    ((s : Server streamed) × (send_list (listening 8 []) ≡ some (some tt, s)))
    × ((n : Net streamed) × (ask_list 6 (hears (bytes_sent 8 (calls_of_list (listening 8 []))))
          ≡ some (some ([], entry ∷ []), n)))
ask_list-send_list_example =
    ask_list-send_list streamed-IsDocumented (λ w. w) streamed-Delivers 8 6
      (record { descriptor = 8; enable = true }) (listening 8 [])
      (hears (bytes_sent 8 (calls_of_list (listening 8 [])))) (λ bytes w. refl) (λ bytes w. refl)
      (λ d bytes w. refl) refl refl refl
      (record { paired = refl; enabled = tt; sendable = tt; counted = omega arith })
      (record {
        paired = refl;
        enabled = (refl, tt);
        sendable = (entry-IsSendable, tt);
        counted = omega arith;
      })
      refl
