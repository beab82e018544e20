-- ===== src/Radio/Forwarding.antt =====
-- ckernelwifi.cc, process_messages and recv_from_server: frames from the driver to the server and to
-- the other radios of the machine, and frames from the server to all its radios.
use vwifi.Prelude.{ℕ, ◌+◌, not, Option, none, some, ◌>>=◌, List, ◌==◌, if◌then◌else◌, take}
use vwifi.Prelude.Int.{ℤ, pos, negsuc}
use vwifi.Prelude.Bytes.{of_le, signed}
use vwifi.Prelude.Ordered.{==_ℤ}
use vwifi.Platform.{Platform}
use vwifi.Select.{node_has_action, wait, scheduler_error}
use vwifi.Socket.{is_socket_error, write_at}
use vwifi.Devices.{same_bytes, get_device_by_mac, list_devices}
use vwifi.Kernel.{
  Kernel, Attribute, attr_addr_transmitter, attr_frame, attr_flags, attr_tx_info, attr_cookie,
  attr_freq,
}
use vwifi.Radio.{
  Radio, eth_alen, hwsim_cmd_frame, with_ack, bytes_at, nlmsg_len, nlmsg_type, cmd, power_of_tx,
  with_world, send_tx_info_frame_nl, manage_server_crash, send_to_server, recv_from_socket,
  clone_to_others, clone_to_all,
}

-- The message with the frame's source in place of the transmitter.
unfoldable pub with_source : (framesrc src msg : List ℕ) → List ℕ
with_source framesrc src msg = if same_bytes framesrc src then msg else write_at 24 framesrc msg

module _ {p : Platform} where
  -- The power of a frame: that of the device which has the frame's source as its address.
  unfoldable pub power_of_source : List ℕ → Radio p → ℤ
  power_of_source framesrc r = elim (get_device_by_mac framesrc r.list_winterfaces) [
    | none ↦ pos 10
    | some dev ↦ power_of_tx dev.txpower
  ]

  unfoldable pub forward_frame : ℤ → List ℕ → Radio p → Radio p
  forward_frame power bytes r =
      let (value, r') = send_to_server power bytes r in
      elim value [ none ↦ manage_server_crash r' | some n ↦ r' ]

module _ {p : Platform} (k : Kernel p) where
  -- HWSIM_ATTR_FREQ if the message had it when it was parsed.
  unfoldable pub frequency_of : List ℕ → List ℕ → ℕ
  frequency_of parsed msg = elim (k.parse parsed attr_freq) [
    | none ↦ 0
    | some a ↦ of_le (bytes_at a.offset 4 msg)
  ]

  -- `process_messages` behind its guards. `none`: an attribute that is not tested for is missing,
  -- and a null pointer is followed.
  unfoldable pub relay_frame : Attribute → List ℕ → Radio p → Option (Radio p)
  relay_frame transmitter msg r = do
    flags ← k.parse msg attr_flags
    tx_info ← k.parse msg attr_tx_info
    cookie ← k.parse msg attr_cookie
    frame ← k.parse msg attr_frame
    let src = bytes_at transmitter.offset eth_alen msg
    let (_, acked) =
        send_tx_info_frame_nl k src (with_ack (of_le (bytes_at flags.offset 4 msg))) (negsuc 9)
          (bytes_at tx_info.offset 8 msg) (bytes_at cookie.offset 8 msg) r
    let framesrc = bytes_at (frame.offset + 10) eth_alen msg
    let msg' = with_source framesrc src msg
    let power = power_of_source framesrc r
    let forwarded = forward_frame power (take (nlmsg_len msg) msg') acked
    some (
        clone_to_others k src (bytes_at frame.offset frame.size msg') power (frequency_of msg msg')
          (list_devices r.list_winterfaces) forwarded)

  unfoldable pub process_messages : List ℕ → Radio p → Option (ℕ × Radio p)
  process_messages msg r =
      let relayed : Option (ℕ × Radio p) = elim (k.parse msg attr_addr_transmitter) [
        | none ↦ some (1, r)
        | some t ↦ do r' ← relay_frame t msg r; some (0, r')
      ] in
      if not r.connected_to_server
      then some (1, r)
      else if not (==_ℤ (pos (nlmsg_type msg)) r.family_id)
      then some (1, r)
      else if not (cmd msg == hwsim_cmd_frame)
      then some (1, r)
      else relayed

  -- `recv_from_server` from the reading of the netlink header on.
  unfoldable pub deliver : ℤ → Radio p → Option (Radio p)
  deliver signal r =
      let msg = r.buffer.buffer in
      let delivered : Option (Radio p) = elim (k.parse msg attr_addr_transmitter) [
        | none ↦ some r
        | some t ↦ do
          frame ← k.parse msg attr_frame
          some (
              clone_to_all k (bytes_at frame.offset frame.size msg) signal (frequency_of msg msg)
                (list_devices r.list_winterfaces) r)
      ] in
      if not (cmd msg == hwsim_cmd_frame) then some r else delivered

  -- `recv_from_server` behind its guards. A failed reading is not the end of it.
  unfoldable pub receive : Radio p → Option (Radio p)
  receive r = do
    (ret, power, r') ← recv_from_socket (signed 8 (of_le (p.uninit 1 r.net.world))) r
    deliver power (if is_socket_error ret then manage_server_crash r' else r')

  -- `none`: the assertion of NodeHasAction fails, or the frame is missing.
  unfoldable pub recv_from_server : Radio p → Option (Radio p)
  recv_from_server r =
      let (activity, s, w) = wait p r.scheduler r.net.world in
      let r' : Radio p = record (with_world w r) { scheduler = s } in
      let received = receive r' in
      let ready = node_has_action 0 s >>= λ has_action. if has_action then received else some r' in
      if not r.connected_to_server
      then some r
      else if ==_ℤ activity scheduler_error
      then some r'
      else ready
