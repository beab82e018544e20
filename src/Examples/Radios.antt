-- ===== src/Examples/Radios.antt =====
-- The radio client at work over a concrete kernel: two radios, and a server that can be reached
-- from the fifth moment on.
use vwifi.Prelude.{
  ℕ, suc, ◌+◌, ◌-◌, ◌≡◌, refl, true, false, not, none, some, List, [], ◌∷◌, ◌++◌, arith, length,
  replicate, ltb, ◌==◌, if◌then◌else◌,
}
use vwifi.Prelude.Int.{pos, negsuc}
use vwifi.Prelude.Bytes.{of_le, signed}
use vwifi.Prelude.Ordered.{update}
use vwifi.Platform.{Platform}
use vwifi.Socket.{DynBuffer, read, read_equal_size, read_loop, needed_size, allocate}
use vwifi.Devices.{WirelessDevice, WirelessDeviceList, add_device, get_device_by_mac}
use vwifi.Devices.Registered.{
  IsValid, Implements, Finds, devices_of, device_changes-Implement, get_device_by_mac-Finds,
}
use vwifi.Kernel.{
  Kernel, HwsimAttr, Attribute, attr_addr_transmitter, attr_frame, attr_flags, attr_tx_info,
  attr_cookie, attr_freq,
}
use vwifi.Client.{SocketClient, connect, init_vtcp}
use vwifi.Client.Connection.{Connects, connect-Connects}
use vwifi.Radio.{Radio}
use vwifi.Radio.Forwarding.{frequency_of, process_messages, recv_from_server}
use vwifi.Radio.Connecting.{reconnect_to_server, manage_server_crash_rounds}
use vwifi.Radio.Nodes.{Adds, reconnect_to_server-Adds}
use vwifi.Radio.Reconnected.{Recovers, IsLinked, rounds-IsLinked}
use vwifi.Radio.Relayed.{IsFrame, Relays, process_messages-Relays}
use vwifi.Radio.Netlink.{init}
use vwifi.Radio.Loaded.{Opens, init-WithoutDriver}
use vwifi.Radio.Requests.{for_family, clones}
use vwifi.Wifi.{recv_signal}
use vwifi.Radio.Delivered.{Reads, HoldsFrame, recv_from_server-Delivers}
use vwifi.Select.{wait, node_has_action}
use vwifi.Devices.{delete_device, list_devices}
use vwifi.Kernel.{register}
use vwifi.Prelude.Ordered.{lookup}
use vwifi.Examples.Network.{wired, up}

abbrev bytes_read : ℕ → List ℕ
bytes_read n =
    if n == 16 then 20 ∷ replicate 15 0 else if n == 4 then 2 ∷ replicate 3 0 else replicate n 0

abbrev pub on_air : Platform
on_air = record wired { recv = λ d n w. (some (bytes_read n), suc w) }

abbrev place : HwsimAttr → Attribute
place attr_addr_transmitter = record { offset = 24; size = 6 }
place attr_frame = record { offset = 34; size = 16 }
place attr_flags = record { offset = 54; size = 4 }
place attr_tx_info = record { offset = 58; size = 8 }
place attr_cookie = record { offset = 66; size = 8 }
place attr_freq = record { offset = 74; size = 4 }

-- The last two bytes of a message of twenty.
abbrev short_place : Attribute
short_place = record { offset = 18; size = 2 }

abbrev pub kernel : Kernel on_air
kernel = record {
  socket = λ a w. (some (30 + w), suc w);
  connect = λ d a w. (not (ltb w 5), suc w);
  sleep = λ t w. suc w;
  getsockname = λ d w. (record { s_addr = 0; sin_port = 0 }, w);
  open_vsock = λ w. (some 7, w);
  local_cid = λ d w. (some (pos 3), w);
  malloc = λ w. (true, w);
  datagram_socket = λ w. (some 8, w);
  permanent_address = λ d name w. (some (66 ∷ replicate 5 0), w);
  parse = λ msg a. some (if length msg == 20 then short_place else place a);
  build = λ family m w. (true, w);
  nl_send_auto = λ family m w. (true, w);
  nl_cb_alloc = λ w. (true, w);
  nl_socket_alloc_cb = λ w. (true, w);
  genl_connect = λ w. (true, w);
  genl_ctrl_resolve = λ w. (if ltb w 2 then negsuc 1 else pos 26, w);
  set_timeout = λ w. (true, w);
  put_callbacks = λ w. w;
  release = λ w. w;
  initialization_stopped = λ w. false;
  start_stopped = λ w. false;
  interrupted = λ w. false;
}

abbrev device : ℕ → WirelessDevice
device i = record {
  name = 119 ∷ 108 ∷ 97 ∷ 110 ∷ [];
  index = pos i;
  iftype = 1;
  txpower = pos 2000;
  macaddr = i ∷ replicate 5 0;
  machwsim = (64 + i) ∷ replicate 5 0;
}

abbrev devices : WirelessDeviceList
devices = add_device (device 4) (add_device (device 3) [])

abbrev client : SocketClient
client = record (init_vtcp 8211) { master = pos 5; is_connected = true }

abbrev pub radio : Radio on_air
radio = record {
  client = client;
  connected_to_server = true;
  scheduler = record {
    master = λ d. d == 5;
    dup = λ d. false;
    max_descriptor = pos 5;
    list_nodes = 5 ∷ [];
    intact = true;
  };
  list_winterfaces = devices;
  family_id = pos 26;
  initialized = true;
  being_initialized = false;
  being_started = false;
  buffer = record { buffer = []; size = 0 };
  number_thread = pos 5;
  net = record { world = 0; calls = [] };
  requests = [];
}

abbrev pub lost : Radio on_air
lost = record radio { connected_to_server = false }

-- A frame of radio 67, of the device with the address 3.
abbrev pub message : List ℕ
message =
    (78 ∷ 0 ∷ 0 ∷ 0 ∷ 26 ∷ 0 ∷ replicate 10 0)
    ++ (2 ∷ replicate 7 0)
    ++ (67 ∷ replicate 9 0)
    ++ replicate 10 0
    ++ (3 ∷ replicate 33 0)

message-IsFrame : IsFrame kernel 26 message
unfolding of_le
message-IsFrame = record {
  of_family = refl;
  of_frame = refl;
  transmitter = place attr_addr_transmitter;
  flags = place attr_flags;
  tx_info = place attr_tx_info;
  cookie = place attr_cookie;
  frame = place attr_frame;
  has_transmitter = refl;
  has_flags = refl;
  has_tx_info = refl;
  has_cookie = refl;
  has_frame = refl;
}

process_messages-Relays_example :
    (r' : Radio on_air) × (process_messages kernel message radio ≡ some (0, r'))
    × Relays message-IsFrame up 5 radio r'
process_messages-Relays_example =
    process_messages-Relays up (λ d bytes w. refl) 5 kernel (λ family m w. refl) 26 message radio
      message-IsFrame refl refl refl

pub kernel-Recovers : Recovers kernel (λ w. 5 - w)
kernel-Recovers = record {
  socket = λ a w. (30 + w, refl);
  socket_rank = λ a w. omega arith;
  connect_rank = λ d a w. ground arith;
  close_rank = λ d w. omega arith;
  sleep_rank = λ t w. omega arith;
}

rounds-IsLinked_example : IsLinked (manage_server_crash_rounds kernel false 6 lost)
rounds-IsLinked_example =
    rounds-IsLinked kernel (λ w. 5 - w) kernel-Recovers false (λ w. refl) 6 lost refl (omega arith)

reconnect_to_server-Adds_example : Adds radio (reconnect_to_server kernel false radio)
reconnect_to_server-Adds_example = reconnect_to_server-Adds kernel false radio

connect-Connects_example : Connects kernel client radio.net (connect kernel client radio.net)
connect-Connects_example = connect-Connects kernel client radio.net

pub kernel-Opens : (w : ℕ) → Opens kernel w w
kernel-Opens w = record { has_cb = refl; has_socket = refl; connects = refl }

init-WithoutDriver_example :
    (r' : Radio on_air) × (init kernel 1 lost ≡ some (true, r'))
    × (r'.initialized ≡ true)
    × (r'.family_id ≡ negsuc 1)
    × (r'.requests ≡ (negsuc 1, register) ∷ [])
init-WithoutDriver_example =
    init-WithoutDriver kernel 0 1 lost 0 (λ family m w. refl) (λ family m w. refl) refl
      (kernel-Opens 0) refl

none-IsValid : IsValid []
unfolding lookup
none-IsValid = record { sorted = tt; own_index = λ i d e. cc }

pub devices-IsValid : IsValid devices
devices-IsValid =
    let one = (device_changes-Implement (device 3) [] none-IsValid).0.valid in
    (device_changes-Implement (device 4) (add_device (device 3) []) one).0.valid

device_changes-Implement_example :
    Implements
      (update (devices_of devices) (pos 5) (some (device 5)))
      (add_device (device 5) devices)
    × Implements (update (devices_of devices) (pos 5) none) (delete_device (device 5) devices)
device_changes-Implement_example = device_changes-Implement (device 5) devices devices-IsValid

get_device_by_mac-Finds_example :
    Finds (4 ∷ replicate 5 0) (devices_of devices) (get_device_by_mac (4 ∷ replicate 5 0) devices)
get_device_by_mac-Finds_example =
    get_device_by_mac-Finds (4 ∷ replicate 5 0) devices devices-IsValid.sorted

abbrev waiting : Radio on_air
waiting = record radio { scheduler = record radio.scheduler { dup = λ d. d == 5 } }

abbrev buffer_read : DynBuffer
buffer_read = record { buffer = 20 ∷ replicate 15 0 ++ 2 ∷ 0 ∷ 0 ∷ 0 ∷ []; size = 20 }

waiting-Reads : Reads 5 waiting (pos 20) (pos 0) buffer_read 4
unfolding wait node_has_action recv_signal read read_equal_size read_loop needed_size allocate of_le
    signed
waiting-Reads = record {
  connected = refl;
  descriptor = refl;
  no_error = refl;
  ready = refl;
  answer = refl;
}

buffer_read-HoldsFrame : HoldsFrame kernel buffer_read.buffer short_place
unfolding of_le
buffer_read-HoldsFrame = record {
  of_frame = refl;
  transmitter = short_place;
  has_transmitter = refl;
  has_frame = refl;
}

recv_from_server-Delivers_example :
    (r' : Radio on_air) × (recv_from_server kernel waiting ≡ some r')
    × (r'.requests
        ≡ for_family (pos 26) (
            clones
              (0 ∷ 0 ∷ [])
              (pos 0)
              (frequency_of kernel buffer_read.buffer buffer_read.buffer)
              (list_devices devices)))
    × (r'.net.calls ≡ [])
    × (r'.connected_to_server ≡ true)
recv_from_server-Delivers_example =
    recv_from_server-Delivers kernel (λ family m w. refl) 26 5 waiting (pos 20) (pos 0) buffer_read
      4 short_place refl waiting-Reads buffer_read-HoldsFrame
