-- ===== src/Info.antt =====
-- ccoordinate.cc, cinfowifi.cc and cinfosocket.cc: what the server knows of one client.
pub mod Distance
use vwifi.Prelude.{
  ℕ, ◌-◌, ◌%◌, ◌^◌, Bool, true, false, ◌||◌, Option, none, some, ◌>>=◌, ◌>>◌, assert, List, [], ◌∷◌,
  ◌++◌, ltb, leb, ◌==◌, if◌then◌else◌, length, take,
}
use vwifi.Prelude.Int.{ℤ, pos, negsuc, ◌-ℤ◌, ◌*ℤ◌, ◌+ℤ◌}
use vwifi.Prelude.Bytes.{signed, pattern_of}
use vwifi.Platform.{Platform, Net, closed}

-- CCoordinate. Each TValue is an `int32_t`.
pub record Coordinate : Type 0 where
  pub x : ℤ
  pub y : ℤ
  pub z : ℤ

abbrev pub origin : Coordinate
origin = record { x = pos 0; y = pos 0; z = pos 0 }

unfoldable pub set_x : ℤ → Coordinate → Coordinate
set_x x c = record c { x = x }

unfoldable pub set_y : ℤ → Coordinate → Coordinate
set_y y c = record c { y = y }

unfoldable pub set_z : ℤ → Coordinate → Coordinate
set_z z c = record c { z = z }

-- `Set` with two numbers, with three, and the constructor with three.
unfoldable pub set_xy : (x y : ℤ) → Coordinate → Coordinate
set_xy x y c = set_y y (set_x x c)

unfoldable pub set_xyz : (x y z : ℤ) → Coordinate → Coordinate
set_xyz x y z c = set_z z (set_xy x y c)

unfoldable pub coordinate_at : (x y z : ℤ) → Coordinate
coordinate_at x y z = set_xyz x y z origin

-- The exact value of (X-x)*(X-x)+(Y-y)*(Y-y)+(Z-z)*(Z-z).
unfoldable pub square_distance : Coordinate → Coordinate → ℤ
square_distance a b =
    (a.x -ℤ b.x) *ℤ (a.x -ℤ b.x) +ℤ (a.y -ℤ b.y) *ℤ (a.y -ℤ b.y) +ℤ (a.z -ℤ b.z) *ℤ (a.z -ℤ b.z)

-- The same in `int`, whose overflow wraps (the language leaves it undefined).
unfoldable pub square_distance_int : Coordinate → Coordinate → ℤ
square_distance_int a b = signed 32 (pattern_of 32 (square_distance a b))

module _ (p : Platform) where
  unfoldable pub distance_with : p.Real → Coordinate → Coordinate → p.Real
  distance_with scale a b = p.mul scale (p.sqrt (p.of_int (square_distance_int a b)))

abbrev pub max_size_name : ℕ
max_size_name = 12

abbrev pub tcid_guest_min : ℕ
tcid_guest_min = 3

-- CInfoWifi. A name is the list of its bytes.
pub record InfoWifi : Type 0 where
  pub coordinate : Coordinate
  pub cid : ℕ
  pub name : List ℕ

unfoldable pub new_info_wifi : InfoWifi
new_info_wifi = record { coordinate = origin; cid = 0; name = [] }

-- `none`: the assertion fails.
unfoldable pub set_cid : ℕ → InfoWifi → Option InfoWifi
set_cid cid w = do assert ((cid == 0) || leb tcid_guest_min cid); some (record w { cid = cid })

unfoldable pub set_name : List ℕ → InfoWifi → InfoWifi
set_name name w = record w {
  name = if ltb max_size_name (length name) then take max_size_name name else name;
}

abbrev pub set_coordinate : Coordinate → InfoWifi → InfoWifi
set_coordinate coo w = record w { coordinate = coo }

-- The constructor with a CID and a coordinate.
unfoldable pub info_wifi : ℕ → Coordinate → Option InfoWifi
info_wifi cid coo = set_cid cid (set_coordinate coo new_info_wifi)

-- CInfoSocket. Every object that exists has a descriptor that is not negative.
pub record InfoSocket : Type 0 where
  pub descriptor : ℕ
  pub enable : Bool

-- `SetDescriptor`, which both constructors call, asserts that the descriptor is not negative.
unfoldable pub set_descriptor : ℤ → Option InfoSocket
set_descriptor (pos d) = some (record { descriptor = d; enable = true })
set_descriptor (negsuc n) = none

-- The default constructor sets -1.
unfoldable pub new_info_socket : Option InfoSocket
new_info_socket = do s ← set_descriptor (negsuc 0); some (record s { enable = false })

abbrev pub disable_it : InfoSocket → InfoSocket
disable_it s = record s { enable = false }

module _ {p : Platform} where
  unfoldable pub close_socket : InfoSocket → Net p → InfoSocket × Net p
  close_socket s n =
      if s.enable
      then (
        disable_it s,
        record n {
          world = p.close s.descriptor n.world;
          calls = n.calls ++ closed s.descriptor ∷ [];
        },
      )
      else (s, n)
