-- ===== src/Radio.antt =====
-- ckernelwifi.cc with cwificlient.h: a machine's radios between the driver mac80211_hwsim and the
-- server. The state is that of CKernelWifi and of the CSocketClient that CWifiClient derives from.
-- The locks of the flags make each of their accesses a single step.
pub mod Notices
pub mod Notified
pub mod Reconnected
pub mod Nodes
pub mod Loaded
pub mod Netlink
pub mod Connecting
pub mod Forwarding
pub mod Requests
pub mod Relayed
pub mod Delivered
use vwifi.Prelude.{
  ℕ, suc, ◌+◌, ◌/◌, ◌%◌, Bool, false, ◌&&◌, ◌||◌, Option, none, some, ◌>>=◌, List, [], ◌∷◌, ◌++◌,
  ◌==◌, if◌then◌else◌, take, drop,
}
use vwifi.Prelude.Int.{ℤ, pos, negsuc, sub_ℕ, ltb_ℤ}
use vwifi.Prelude.Bytes.{of_le, signed, pattern_of}
use vwifi.Platform.{Platform, Net}
use vwifi.Select.{Select}
use vwifi.Socket.{DynBuffer, socket_error}
use vwifi.Wifi.{send_signal, recv_signal}
use vwifi.Devices.{WirelessDevice, WirelessDeviceList, same_bytes}
use vwifi.Kernel.{Kernel, Message, register, tx_info_frame, clone}
use vwifi.Client.{SocketClient}

pub record Radio (p : Platform) : Type 0 where
  pub client : SocketClient
  pub connected_to_server : Bool
  pub scheduler : Select
  pub list_winterfaces : WirelessDeviceList
  pub family_id : ℤ
  pub initialized : Bool
  pub being_initialized : Bool
  pub being_started : Bool
  pub buffer : DynBuffer
  -- The count of InterruptibleThread.
  pub number_thread : ℤ
  pub net : Net p
  -- What was given to `nl_send_auto`, oldest first, with the family it was built for.
  pub requests : List (ℤ × Message)

abbrev pub eth_alen : ℕ
eth_alen = 6

-- HWSIM_CMD_FRAME and HWSIM_TX_STAT_ACK, of mac80211_hwsim.h.
abbrev pub hwsim_cmd_frame : ℕ
hwsim_cmd_frame = 2

-- `flags |= HWSIM_TX_STAT_ACK`, which is bit 2.
unfoldable pub with_ack : ℕ → ℕ
with_ack flags = if flags / 4 % 2 == 1 then flags else flags + 4

-- `n` bytes of a message from an offset on.
abbrev pub bytes_at : ℕ → ℕ → List ℕ → List ℕ
bytes_at offset n msg = take n (drop offset msg)

-- `nlmsg_len`, `nlmsg_type` and `cmd` of a message.
abbrev pub nlmsg_len : List ℕ → ℕ
nlmsg_len msg = of_le (bytes_at 0 4 msg)

abbrev pub nlmsg_type : List ℕ → ℕ
nlmsg_type msg = of_le (bytes_at 4 2 msg)

abbrev pub cmd : List ℕ → ℕ
cmd msg = of_le (bytes_at 16 1 msg)

-- `dev.getTxPower() / 100`, kept in a `TPower`: the division drops the fraction, the byte wraps.
unfoldable pub power_of_tx : ℤ → ℤ
power_of_tx (pos n) = signed 8 (pattern_of 8 (pos (n / 100)))
power_of_tx (negsuc n) = signed 8 (pattern_of 8 (sub_ℕ 0 (suc n / 100)))

abbrev pub rate_idx : ℕ
rate_idx = 7

-- HWSIM_ATTR_FREQ is put only if the frequency is not 0.
unfoldable pub cloned_frame : List ℕ → List ℕ → ℤ → ℕ → Message
cloned_frame dst frame signal frequency =
    clone dst frame rate_idx (pattern_of 32 signal)
      (if frequency == 0 then none else some frequency)

module _ {p : Platform} where
  abbrev pub with_world : p.World → Radio p → Radio p
  with_world w r = record r { net = record r.net { world = w } }

  unfoldable pub manage_server_crash : Radio p → Radio p
  manage_server_crash r = record r { connected_to_server = false }

  -- `_SendSignal` and `_RecvSignal` of CWifiClient; calls on descriptor -1 fail.
  unfoldable pub send_to_server : ℤ → List ℕ → Radio p → Option ℕ × Radio p
  send_to_server power bytes r = elim r.client.master [
    | negsuc d ↦ (none, r)
    | pos d ↦ let (ret, n) = send_signal p d power bytes r.net in (ret, record r { net = n })
  ]

  unfoldable pub recv_from_socket : ℤ → Radio p → Option (ℤ × ℤ × Radio p)
  recv_from_socket power r = elim r.client.master [
    | negsuc d ↦ some (socket_error, power, r)
    | pos d ↦ do
      (ret, power', buffer, w) ← recv_signal p d power r.buffer r.net.world
      some (ret, power', record (with_world w r) { buffer = buffer })
  ]

module _ {p : Platform} (k : Kernel p) where
  -- The part that the three functions sending to the driver share, from `nl_send_auto` on.
  unfoldable pub nl_send : Message → Radio p → Bool × Radio p
  nl_send m r =
      let (ok, w) = k.nl_send_auto r.family_id m r.net.world in
      (
        ok,
        record r {
          net = record r.net { world = w };
          requests = r.requests ++ (r.family_id, m) ∷ [];
        },
      )

  unfoldable pub build_and_send : Message → Radio p → Bool × Radio p
  build_and_send m r =
      let (built, w) = k.build r.family_id m r.net.world in
      let sent' = nl_send m (with_world w r) in
      if ltb_ℤ r.family_id (pos 0)
      then (false, r)
      else if built
      then sent'
      else (false, with_world w r)

  unfoldable pub send_tx_info_frame_nl : List ℕ → ℕ → ℤ → List ℕ → List ℕ → Radio p → Bool × Radio p
  send_tx_info_frame_nl src flags signal tx_attempts cookie r =
      build_and_send (tx_info_frame src flags (pattern_of 32 signal) tx_attempts cookie) r

  unfoldable pub send_cloned_frame_msg : List ℕ → List ℕ → ℤ → ℕ → Radio p → Bool × Radio p
  send_cloned_frame_msg dst frame signal frequency r =
      build_and_send (cloned_frame dst frame signal frequency) r

  -- This function does not look at the sign of the family.
  unfoldable pub send_register_msg : Radio p → Bool × Radio p
  send_register_msg r =
      let (built, w) = k.build r.family_id register r.net.world in
      let sent' = nl_send register (with_world w r) in
      if built then sent' else (false, with_world w r)

  -- The loops over `list_devices`: to every radio but the one with a given address; to all.
  unfoldable pub clone_to_others : List ℕ → List ℕ → ℤ → ℕ → List WirelessDevice → Radio p → Radio p
  clone_to_others src frame signal frequency [] r = r
  clone_to_others src frame signal frequency (d ∷ ds) r =
      let (_, r') = send_cloned_frame_msg d.machwsim frame signal frequency r in
      clone_to_others src frame signal frequency ds (if same_bytes src d.machwsim then r else r')

  unfoldable pub clone_to_all : List ℕ → ℤ → ℕ → List WirelessDevice → Radio p → Radio p
  clone_to_all frame signal frequency [] r = r
  clone_to_all frame signal frequency (d ∷ ds) r =
      let (_, r') = send_cloned_frame_msg d.machwsim frame signal frequency r in
      clone_to_all frame signal frequency ds r'
