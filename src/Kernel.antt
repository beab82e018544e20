-- ===== src/Kernel.antt =====
-- What vwifi-client takes from the kernel and from libnl beyond the calls of Platform: connections,
-- the netlink of the driver mac80211_hwsim, and the permanent address of an interface. All of it is
-- a parameter of the models. The server's address is part of a connection's description.
use vwifi.Prelude.{ℕ, Bool, Option, List}
use vwifi.Prelude.Int.{ℤ}
use vwifi.Platform.{Platform, SockaddrIn}

-- The `Server` of CSocketClientITCP, and of CSocketClientVTCP: a CID and a port.
pub data ServerAddress : Type 0 where
  itcp : SockaddrIn → ServerAddress
  vtcp : ℕ → ℕ → ServerAddress

-- The attributes of mac80211_hwsim.h that the program reads.
pub data HwsimAttr : Type 0 where
  attr_addr_transmitter attr_frame attr_flags attr_tx_info attr_cookie attr_freq : HwsimAttr

-- Where `nla_data` of an attribute stands in its message, and `nla_len`.
pub record Attribute : Type 0 where
  pub offset : ℕ
  pub size : ℕ

-- The messages that the program sends to the driver, with the attributes it puts into them: the
-- `signal`s as the numbers that `nla_put_u32` writes. `clone` is HWSIM_CMD_FRAME.
pub data Message : Type 0 where
  register : Message
  tx_info_frame :
      (src : List ℕ) (flags signal : ℕ) (tx_attempts : List ℕ) (cookie : List ℕ) → Message
  clone : (dst frame : List ℕ) (rate_idx signal : ℕ) (freq : Option ℕ) → Message

pub record Kernel (p : Platform) : Type 0 where
  -- `socket` for the family of the server, and `connect`: whether it returned 0.
  pub socket : ServerAddress → p.World → Option ℕ × p.World
  pub connect : ℤ → ServerAddress → p.World → Bool × p.World
  pub sleep : ℕ → p.World → p.World
  pub getsockname : ℤ → p.World → SockaddrIn × p.World
  -- `open("/dev/vsock", 0)` and the ioctl for the CID of this machine.
  pub open_vsock : p.World → Option ℕ × p.World
  pub local_cid : ℕ → p.World → Option ℤ × p.World
  -- `malloc`, a datagram socket, and the ioctl SIOCETHTOOL with ETHTOOL_GPERMADDR on a name: the
  -- bytes of the address it answers.
  pub malloc : p.World → Bool × p.World
  pub datagram_socket : p.World → Option ℕ × p.World
  pub permanent_address : ℕ → List ℕ → p.World → Option (List ℕ) × p.World
  -- `genlmsg_parse` of a message.
  pub parse : List ℕ → HwsimAttr → Option Attribute
  -- `nlmsg_alloc`, `genlmsg_put` and all the `nla_put`s of a message: whether they succeed.
  pub build : ℤ → Message → p.World → Bool × p.World
  -- `nl_send_auto` of a message that was built for a family: whether it succeeds.
  pub nl_send_auto : ℤ → Message → p.World → Bool × p.World
  -- `nl_cb_alloc`, `nl_socket_alloc_cb` and `genl_connect`: whether they succeed.
  pub nl_cb_alloc : p.World → Bool × p.World
  pub nl_socket_alloc_cb : p.World → Bool × p.World
  pub genl_connect : p.World → Bool × p.World
  pub genl_ctrl_resolve : p.World → ℤ × p.World
  -- The receive timeout of the netlink socket: whether it could be set.
  pub set_timeout : p.World → Bool × p.World
  -- `nl_cb_put` alone; and `nl_close`, `nl_socket_free` and `nl_cb_put`.
  pub put_callbacks : p.World → p.World
  pub release : p.World → p.World
  -- What `CKernelWifi::stop`, called from a signal handler, has done by now to a loop that waits:
  -- whether it has cleared `_being_initialized`, `_being_started`, or set the interrupt flag of the
  -- thread.
  pub initialization_stopped : p.World → Bool
  pub start_stopped : p.World → Bool
  pub interrupted : p.World → Bool

-- What MonitorWirelessDevice asks of nl80211 about one interface: the attributes of a reply, an
-- integer as `nla_get_u32` reads it.
pub record InterfaceReply : Type 0 where
  pub ifname : Option (List ℕ)
  pub ifindex : Option ℕ
  pub mac : Option (List ℕ)
  pub iftype : Option ℕ
  pub tx_power_level : Option ℕ

-- A message that `nl_recvmsgs` hands to the callback of NL_CB_VALID, and the end of a dump, which
-- goes to the one of NL_CB_FINISH.
pub data Reply : Type 0 where
  valid : InterfaceReply → Reply
  finish : Reply

pub record LinkKernel (p : Platform) : Type 0 where
  -- A netlink route socket that is bound to the group of link events: whether `socket` and `bind`
  -- succeed; `select` on it, and `recvmsg`: `none` where it fails,
  -- else the types of the messages that NLMSG_OK and NLMSG_NEXT walk, with their bytes.
  pub socket : p.World → Bool × p.World
  pub bind : p.World → Bool × p.World
  pub select : p.World → ℤ × p.World
  pub recvmsg : p.World → Option (List (ℕ × List ℕ)) × p.World
  -- `ifi_index` and `ifi_type` of a link message, and its attributes in the order of RTA_NEXT: type
  -- and data, a string up to its NUL.
  pub link_info : List ℕ → ℤ × ℕ
  pub link_attributes : List ℕ → List (ℕ × List ℕ)
  -- The netlink socket of nl80211.
  pub nl_socket_alloc : p.World → Bool × p.World
  pub genl_connect : p.World → Bool × p.World
  pub resolve_nl80211 : p.World → ℤ × p.World
  pub nl_cb_alloc : p.World → Bool × p.World
  pub release : p.World → p.World
  -- `nlmsg_alloc`; NL80211_CMD_GET_INTERFACE for one interface or, for 0, for all; the replies of
  -- one `nl_recvmsgs`.
  pub nlmsg_alloc : p.World → Bool × p.World
  pub get_interface : ℤ → p.World → Bool × p.World
  pub nl_recvmsgs : p.World → List Reply × p.World
  -- Whether another thread has called `stop` by now.
  pub stopped : p.World → Bool
