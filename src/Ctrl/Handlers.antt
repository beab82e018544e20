-- ===== src/Ctrl/Handlers.antt =====
-- What the handlers of cctrlserver.cc share: how they return early or stop the process, the one
-- client of the control socket, and the variables on the wire.
use vwifi.Prelude.{
  ℕ, Bool, Option, none, some, List, [], ◌∷◌, ◌++◌, ◌==◌, if◌then◌else◌, get_elem?, set, drop, take,
  length, replicate,
}
use vwifi.Prelude.Int.{ℤ}
use vwifi.Prelude.Bytes.{le, of_le, signed, pattern_of}
use vwifi.Platform.{Platform, Net}
use vwifi.Info.{Coordinate, InfoWifi}
use vwifi.Socket.{read, send, write_at}
use vwifi.WifiServer.{WifiServer}
use vwifi.Server.{Server}

-- The outer `none` stops the process, the inner one returns from the handler.
abbrev pub Handler : Platform → Type 0 → Type 0
Handler p A = Server p → Option (Option A × Server p)

module _ {p : Platform} where
  infixl 5 ◌>>=◌ ◌>>◌
  unfoldable pub ◌>>=◌ : {A B : Type 0} → Handler p A → (A → Handler p B) → Handler p B
  ◌>>=◌ m f s = elim (m s) [
    | none ↦ none
    | some (none, s') ↦ some (none, s')
    | some (some a, s') ↦ f a s'
  ]

  abbrev pub ◌>>◌ : {B : Type 0} → Handler p (Unit {0}) → Handler p B → Handler p B
  m >> k = m >>= λ _. k

  abbrev pub pure : {A : Type 0} → A → Handler p A
  pure a s = some (some a, s)

  abbrev pub return_early : {A : Type 0} → Handler p A
  return_early s = some (none, s)

  -- A value that an assertion or an access may fail to give.
  abbrev pub checked : {A : Type 0} → Option A → Handler p A
  checked none s = none
  checked (some a) s = some (some a, s)

  abbrev pub get_state : Handler p (Server p)
  get_state s = some (some s, s)

  abbrev pub put_state : Server p → Handler p (Unit {0})
  put_state s _ = some (some tt, s)

  -- `GetSocketClient(0)`.
  unfoldable pub ctrl_client : Handler p ℕ
  ctrl_client = do
    s ← get_state
    socket ← checked (get_elem? s.ctrl_sockets 0)
    pure socket.descriptor

  -- `if( Read(&v, sizeof(v)) == SOCKET_ERROR ) return;` a short read leaves the rest of `v` as it was.
  unfoldable pub ctrl_read : ℕ → Handler p (List ℕ)
  ctrl_read size = do
    d ← ctrl_client
    s ← get_state
    let (ret, w) = read p d size s.net.world
    let n : Net p = record (s.net) { world = w }
    put_state (record s { net = n })
    elim ret [
      | none ↦ return_early
      | some bytes ↦ pure (write_at 0 bytes (p.uninit size s.net.world))
    ]

  -- The same into a variable whose bytes are `old`.
  unfoldable pub ctrl_read_over : List ℕ → Handler p (List ℕ)
  ctrl_read_over old = do
    d ← ctrl_client
    s ← get_state
    let (ret, w) = read p d (length old) s.net.world
    let n : Net p = record (s.net) { world = w }
    put_state (record s { net = n })
    elim ret [ none ↦ return_early | some bytes ↦ pure (write_at 0 bytes old) ]

  -- `if( Send(&v, sizeof(v)) == SOCKET_ERROR ) return;`
  unfoldable pub ctrl_send : List ℕ → Handler p (Unit {0})
  ctrl_send bytes = do
    d ← ctrl_client
    s ← get_state
    let (ret, n) = send p d bytes s.net
    put_state (record s { net = n })
    elim ret [ none ↦ return_early | some _ ↦ pure tt ]

-- The variables on the wire: `TCID`, `int`, `bool` and CCoordinate.
abbrev pub u32_bytes : ℕ → List ℕ
u32_bytes v = le 4 v

abbrev pub s32_bytes : ℤ → List ℕ
s32_bytes z = le 4 (pattern_of 32 z)

abbrev pub bool_bytes : Bool → List ℕ
bool_bytes b = (if b then 1 else 0) ∷ []

unfoldable pub coordinate_bytes : Coordinate → List ℕ
coordinate_bytes c = s32_bytes c.x ++ s32_bytes c.y ++ s32_bytes c.z

-- A CCoordinate as it is constructed.
abbrev pub zero_coordinate : List ℕ
zero_coordinate = replicate 12 0

unfoldable pub coordinate_of : List ℕ → Coordinate
coordinate_of bs = record {
  x = signed 32 (of_le (take 4 bs));
  y = signed 32 (of_le (take 4 (drop 4 bs)));
  z = signed 32 (of_le (take 4 (drop 8 bs)));
}

-- `string(buffer)`: the bytes before the first zero; reading on behind the buffer is undefined.
unfoldable pub c_string : List ℕ → Option (List ℕ)
c_string [] = none
c_string (b ∷ bs) =
    let rest : Option (List ℕ) = elim (c_string bs) [ none ↦ none | some cs ↦ some (b ∷ cs) ] in
    if b == 0 then some [] else rest

-- The client with a CID, among the connected ones or the remembered ones, is changed in place.
abbrev pub change_at : (InfoWifi → InfoWifi) → ℕ → List InfoWifi → List InfoWifi
change_at f i ws = elim (get_elem? ws i) [ none ↦ ws | some w ↦ set ws i (f w) ]

abbrev pub change_connected : (InfoWifi → InfoWifi) → ℕ → WifiServer → WifiServer
change_connected f i s = record s { info_wifis = change_at f i s.info_wifis }

abbrev pub change_deconnected : (InfoWifi → InfoWifi) → ℕ → WifiServer → WifiServer
change_deconnected f i s = record s {
  info_wifis_deconnected = change_at f i s.info_wifis_deconnected;
}
