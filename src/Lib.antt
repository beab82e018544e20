-- ===== src/Lib.antt =====
-- vwifi carries the radio frames of virtual machines over TCP or VHOST. A server (vwifi-server)
-- accepts the clients and the spies, forwards each frame that one of them sends to the others, with
-- an attenuation that depends on the distance, and serves the orders of vwifi-ctrl. This library
-- models the server, the client (vwifi-client), which carries the frames between the driver
-- mac80211_hwsim of its machine and the server, and vwifi-ctrl, and proves what their parts keep.
--
-- Platform: what the program takes from outside (socket calls, pselect, rand, uninitialised memory,
--   libnl, double arithmetic) as one record, and the calls made so far. All definitions take it as a
--   parameter, so each theorem holds on any network unless it names a hypothesis.
-- Tools: src/tools.cc, hash_ipaddr and the checks of command-line words.
-- Select: src/cselect.cc, the scheduler: AddNode, DelNode, Wait.
-- Info: src/ccoordinate.cc, src/cinfowifi.cc and src/cinfosocket.cc, what is known of one client.
-- Socket: src/csocket.cc and src/cdynbuffer.cc, Send, Read, ReadEqualSize, SendBigData, ReadBigData.
--   Sent is about the bytes that go over a descriptor, Pieces about those that come.
-- Wifi: src/cwifi.cc, Attenuation, BoundedPower, PacketIsLost, and signals through a socket.
-- WifiServer: src/csocketserver.cc and src/cwifiserver.cc, the lists of clients and what sends to
--   them. Registry, Closing and Reconnect are about the lists, Effects, Sending and Lossy about the
--   calls that sending makes. Owned has the objects behind the pointers to the lists, with the
--   constructors, copies and destructors, and Copied is about copies.
-- Server: src/vwifi-server.cc, RemoveClient and ForwardData, on the state of the whole process.
-- Ctrl: src/cctrlserver.cc, one handler for each order and ReceiveOrder; TOrder of src/types.h.
-- CtrlClient: src/vwifi-ctrl.cc, the client's side of each order on its connection, with the words of
--   the order in CtrlClient.Words. Sent and Lists are about what the server answers,
--   Answers and Shown about what is read back.
-- Commands: the orders that change the server, told apart from their bytes: what vwifi-ctrl sends for
--   one (Said) and what becomes of the server that reads it (Obeyed, Served).
-- MainLoop: src/vwifi-server.cc, the loop of vwifi_server, built with ENABLE_VHOST.
-- Listening: vwifi_server as a whole, with the opening of its four servers by Listen of
--   src/csocketserver.cc, src/csocketserverfunctionitcp.cc and src/csocketserverfunctionvtcp.cc.
-- Kernel: what the client takes from the kernel and libnl beyond Platform, as records of parameters.
-- Client: src/csocketclient.cc, src/csocketclientitcp.cc and src/csocketclientvtcp.cc, a connection.
-- Devices: src/cwirelessdevice.cc and src/cwirelessdevicelist.cc; Prelude.Ordered is the `std::map`.
-- Radio: src/ckernelwifi.cc and src/cwificlient.h on the state of CKernelWifi: the requests to the
--   driver, process_messages and recv_from_server (Forwarding), the notifications (Notices), the
--   netlink socket (Netlink), the connection and its recovery (Connecting). Requests, Relayed and
--   Delivered are about frames, Notified about the devices, Reconnected and Nodes about the
--   connection, Loaded about the driver.
-- Monitor: src/cmonwirelessdevice.cc, the events of interfaces, on the state of Radio.
-- Start: CKernelWifi::start of src/ckernelwifi.cc up to its threads, over Radio and Monitor, with the
--   constructor of MonitorWirelessDevice.
-- Rounds: the loops of src/ckernelwifi.cc, a round at a time, and `stop` up to the threads. Kept and
--   Loaded are about what a round leaves as it is, Sound and Started about rounds in any order.
-- Threads: src/cthread.cc, CKernelWifi::start and CKernelWifi::stop with its early returns, on the
--   five threads, as a step relation.
-- Interfaces: src/addinterfaces.cc, CreateRadios and ManageRadios.
-- CommandLine: the options of src/vwifi-server.cc and src/vwifi-client.cc, main of src/vwifi-ctrl.cc
--   (Orders) and of src/vwifi-add-interfaces.cc (Adding). Decimal and Typed are about words that are
--   read, Served about what becomes of the server that an order typed is sent to.
-- Examples: the theorems applied to small servers and clients on a concrete network.
--
-- A client is one entry of two lists of equal length; the server for VHOST and the one for TCP share
-- their lists, so the model has one `clients` and one `spies`. An integer of the program is a number
-- with its wrap-around written out where it can be reached, a C string or a buffer a list of bytes.
-- A definition whose result is `none` has met a failed assertion or a read outside of its data.
-- Loops over the clients are structural; ForwardData runs on fuel, of which the number of clients is
-- enough since each round removes a client or goes on; ReadEqualSize runs on fuel, of which the bytes
-- left are enough since each read gives at least one. The loops that wait for the driver, for the
-- server or for the end of a dump run on fuel too: how often they go round is a matter of the kernel,
-- so the theorems on their end take a bound on that as a hypothesis, and more fuel than the bound is
-- enough.
--
-- The threads of the client take turns by whole rounds: Rounds lets the rounds of their loops and
-- the events of the interfaces follow each other in any order, but no two of them run at once. Radio
-- and Monitor take each handler as one step. Threads keeps of the handlers only that they begin, and
-- that they may return or, in one case, end the loop: one that blocks takes no further step.
--
-- Where the program goes on with memory that it has not written or that it may not touch, the result
-- is `none`: GetFrequency behind a parser that fails, recv_inet_event behind a recvmsg that fails. A
-- descriptor of FD_SETSIZE (1024) or more, which FD_SET writes behind its set, only clears the field
-- `intact` of the scheduler, and the theorems speak of the sets as they are without such a write.
-- Where vwifi_server comes to its return behind an error of the scheduler, MainLoop ends; what the
-- destructors do then is in WifiServer.Owned, where the deletion of a list that is a variable is
-- `none`.
--
-- Not modelled: the extra information on stations, the building of netlink messages byte by byte,
-- vwifi-inet-monitor, and the messages on the console. `sscanf`, `atof`, `inet_addr` and `htons` are
-- parameters of the definitions that call them.

pub mod Prelude
pub mod Platform
pub mod Tools
pub mod Select
pub mod Info
pub mod Socket
pub mod Wifi
pub mod WifiServer
pub mod Server
pub mod Ctrl
pub mod Devices
pub mod Kernel
pub mod Client
pub mod Radio
pub mod Monitor
pub mod Start
pub mod Listening
pub mod Rounds
pub mod Threads
pub mod Interfaces
pub mod CommandLine
pub mod CtrlClient
pub mod Commands
pub mod MainLoop
pub mod Examples
