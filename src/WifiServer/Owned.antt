-- ===== src/WifiServer/Owned.antt =====
-- csocketserver.cc and cwifiserver.cc: the construction, copying and destruction of a CWifiServer,
-- with its lists behind pointers. `none` is a read or a deletion of what is not there, or a deletion
-- of a variable.
use vwifi.Prelude.{
  ℕ, suc, Bool, true, false, Option, none, some, ◌>>=◌, List, [], ◌∷◌, ◌++◌, ◌==◌, if◌then◌else◌,
}
use vwifi.Prelude.Int.{ℤ, pos, negsuc}
use vwifi.Platform.{Platform, Net, closed}
use vwifi.Info.{InfoWifi, InfoSocket, close_socket}

-- What a pointer to a list leads to: nothing, an object that `new` made, or a variable.
pub data Pointer : Type 0 where
  null : Pointer
  object : ℕ → Pointer
  variable : ℕ → Pointer

pub record Heap (A : Type 0) : Type 0 where
  pub objects : ℕ → Option A
  pub variables : ℕ → A
  -- The objects made so far are below it.
  pub next : ℕ

module _ {A : Type 0} where
  unfoldable pub new : A → Heap A → Pointer × Heap A
  new x h = (
    object h.next,
    record h { objects = λ a. if a == h.next then some x else h.objects a; next = suc h.next },
  )

  unfoldable pub deref : Pointer → Heap A → Option A
  deref null h = none
  deref (object a) h = h.objects a
  deref (variable a) h = some (h.variables a)

  unfoldable pub delete : Pointer → Heap A → Option (Heap A)
  delete null h = some h
  delete (object a) h = elim (h.objects a) [
    | none ↦ none
    | some x ↦ some (record h { objects = λ b. if b == a then none else h.objects b })
  ]
  delete (variable a) h = none

pub record Lists : Type 0 where
  pub sockets : Heap (List InfoSocket)
  pub wifis : Heap (List InfoWifi)

-- The members of CSocket, CSocketServer and CWifiServer.
pub record Holder : Type 0 where
  pub master : ℤ
  pub port : ℕ
  pub list_info_self_managed : Bool
  pub info_sockets : Pointer
  pub max_client_deconnected : ℕ
  pub info_wifis : Pointer
  pub info_wifis_deconnected : Pointer

-- A member that has no value yet is 0 or null.
abbrev blank : Holder
blank = record {
  master = pos 0;
  port = 0;
  list_info_self_managed = false;
  info_sockets = null;
  max_client_deconnected = 0;
  info_wifis = null;
  info_wifis_deconnected = null;
}

-- The constructor of CSocketServer: whether it manages its list, and the list.
unfoldable pub construct_socket_server : Pointer → Lists → Bool × Pointer × Lists
construct_socket_server null s =
    let (sockets, hs) = new [] s.sockets in (true, sockets, record s { sockets = hs })
construct_socket_server (object a) s = (false, object a, s)
construct_socket_server (variable a) s = (false, variable a, s)

-- The constructor of CWifiServer without lists, and the one with lists.
unfoldable pub new_server : Lists → Holder × Lists
new_server s =
    let (managed, sockets, s') = construct_socket_server null s in
    let (wifis, hw₁) = new [] s'.wifis in
    let (deconnected, hw₂) = new [] hw₁ in
    (
      record blank {
        list_info_self_managed = managed;
        info_sockets = sockets;
        info_wifis = wifis;
        info_wifis_deconnected = deconnected;
      },
      record s' { wifis = hw₂ },
    )

unfoldable pub new_server_on : (sockets wifis deconnected : Pointer) → Lists → Holder × Lists
new_server_on sockets wifis deconnected s =
    let (managed, sockets', s') = construct_socket_server sockets s in
    (
      record blank {
        list_info_self_managed = managed;
        info_sockets = sockets';
        info_wifis = wifis;
        info_wifis_deconnected = deconnected;
      },
      s',
    )

-- CSocketServer::operator= and CWifiServer::operator=, between two objects.
unfoldable pub assign_socket_server : Holder → Holder → Lists → Option (Holder × Lists)
assign_socket_server o other s =
    let o' : Holder = record o {
      port = other.port;
      list_info_self_managed = other.list_info_self_managed;
    } in
    let copied : Option (Holder × Lists) = (do
      hs ← delete o.info_sockets s.sockets
      sockets ← deref other.info_sockets hs
      let (copy, hs') = new sockets hs
      some (record o' { info_sockets = copy }, record s { sockets = hs' })) in
    if other.list_info_self_managed
    then copied
    else some (record o' { info_sockets = other.info_sockets }, s)

abbrev pub delete_wifis : Holder → Heap (List InfoWifi) → Option (Heap (List InfoWifi))
delete_wifis o h = do h' ← delete o.info_wifis h; delete o.info_wifis_deconnected h'

abbrev delete_old_wifis : Holder → Heap (List InfoWifi) → Option (Heap (List InfoWifi))
delete_old_wifis o h = elim o.info_wifis [
  | null ↦ some h
  | object a ↦ delete_wifis o h
  | variable a ↦ delete_wifis o h
]

unfoldable pub assign_wifi_server : Holder → Holder → Lists → Option (Holder × Lists)
assign_wifi_server o other s =
    let o' : Holder = record o { max_client_deconnected = other.max_client_deconnected } in
    let copied : Option (Holder × Lists) = (do
      hw ← delete_old_wifis o s.wifis
      wifis ← deref other.info_wifis hw
      let (copy, hw₁) = new wifis hw
      deconnected ← deref other.info_wifis_deconnected hw₁
      let (copy', hw₂) = new deconnected hw₁
      some (
        record o' { info_wifis = copy; info_wifis_deconnected = copy' },
        record s { wifis = hw₂ },
      )) in
    if o.list_info_self_managed
    then copied
    else some (
      record o' {
        info_wifis = other.info_wifis;
        info_wifis_deconnected = other.info_wifis_deconnected;
      },
      s,
    )

-- The copy constructors of CSocketServer and of CWifiServer.
unfoldable pub copy_socket_server : Holder → Lists → Option (Holder × Lists)
copy_socket_server other s = assign_socket_server (record blank { master = other.master }) other s

unfoldable pub copy_server : Holder → Lists → Option (Holder × Lists)
copy_server other s = do
  (o, s') ← copy_socket_server other s
  assign_wifi_server (record o { info_wifis = null; info_wifis_deconnected = null }) other s'

module _ {p : Platform} where
  unfoldable pub close_sockets : List InfoSocket → Net p → Net p
  close_sockets [] n = n
  close_sockets (socket ∷ rest) n = close_sockets rest (close_socket socket n).1

  abbrev pub close_master : ℤ → Net p → Net p
  close_master (negsuc d) n = n
  close_master (pos d) n = record { world = p.close d n.world; calls = n.calls ++ closed d ∷ [] }

  -- The destructors, one after the other; CSocket's own finds the socket closed.
  unfoldable pub destroy_server : Holder → Lists → Net p → Option (Lists × Net p)
  destroy_server o s n = do
    hw ← if o.list_info_self_managed then delete_wifis o s.wifis else some s.wifis
    sockets ← deref o.info_sockets s.sockets
    hs ← delete o.info_sockets s.sockets
    some (record { sockets = hs; wifis = hw }, close_master o.master (close_sockets sockets n))
