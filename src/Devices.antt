-- ===== src/Devices.antt =====
-- cwirelessdevice.cc and cwirelessdevicelist.cc: the wireless interfaces of one machine. A name is
-- the list of its bytes, an address the list of its six bytes, the `std::map` of the list its pairs
-- in the order of their keys. The mutex of the list makes each operation a single step.
pub mod Registered
use vwifi.Prelude.{
  ℕ, Bool, true, false, ◌&&◌, Option, none, some, List, [], ◌∷◌, map, leb, ◌==◌, if◌then◌else◌,
}
use vwifi.Prelude.Int.{ℤ}
use vwifi.Prelude.Ordered.{insert, erase}

-- `memcmp` over whole addresses, as a test for equality.
unfoldable pub same_bytes : List ℕ → List ℕ → Bool
same_bytes [] [] = true
same_bytes [] (b ∷ bs) = false
same_bytes (a ∷ rest) [] = false
same_bytes (a ∷ rest) (b ∷ bs) = (a == b) && same_bytes rest bs

-- WirelessDevice: `machwsim` is the address by which the driver knows the radio.
pub record WirelessDevice : Type 0 where
  pub name : List ℕ
  pub index : ℤ
  pub iftype : ℕ
  pub txpower : ℤ
  pub macaddr : List ℕ
  pub machwsim : List ℕ

-- The constructor that is given one address.
unfoldable pub wireless_device : List ℕ → ℤ → ℕ → List ℕ → ℤ → WirelessDevice
wireless_device name index iftype macaddr txpower = record {
  name = name;
  index = index;
  iftype = iftype;
  txpower = txpower;
  macaddr = macaddr;
  machwsim = macaddr;
}

-- The constructor that is given both.
unfoldable pub wireless_device_of_radio : List ℕ → ℤ → ℕ → List ℕ → List ℕ → ℤ → WirelessDevice
wireless_device_of_radio name index iftype macaddr machwsim txpower = record {
  name = name;
  index = index;
  iftype = iftype;
  txpower = txpower;
  macaddr = macaddr;
  machwsim = machwsim;
}

abbrev pub set_machwsim : List ℕ → WirelessDevice → WirelessDevice
set_machwsim machwsim d = record d { machwsim = machwsim }

-- `[0-9]*` on a whole word.
unfoldable pub all_digits : List ℕ → Bool
all_digits [] = true
all_digits (c ∷ cs) = (leb 48 c && leb c 57) && all_digits cs

-- The regular expression `wlan[0-9]*` on the whole name.
unfoldable pub checkif_wireless_name : List ℕ → Bool
checkif_wireless_name (w ∷ l ∷ a ∷ n ∷ digits) =
    ((w == 119) && ((l == 108) && ((a == 97) && (n == 110)))) && all_digits digits
checkif_wireless_name _ = false

unfoldable pub checkif_wireless_device : WirelessDevice → Bool
checkif_wireless_device d = checkif_wireless_name d.name

-- WirelessDeviceList.
abbrev pub WirelessDeviceList : Type 0
WirelessDeviceList = List (ℤ × WirelessDevice)

unfoldable pub get_device_by_mac : List ℕ → WirelessDeviceList → Option WirelessDevice
get_device_by_mac macaddr [] = none
get_device_by_mac macaddr ((i, d) ∷ ds) =
    let rest = get_device_by_mac macaddr ds in if same_bytes d.macaddr macaddr then some d else rest

unfoldable pub add_device : WirelessDevice → WirelessDeviceList → WirelessDeviceList
add_device d ds = insert d.index d ds

unfoldable pub delete_device : WirelessDevice → WirelessDeviceList → WirelessDeviceList
delete_device d ds = erase d.index ds

unfoldable pub delete_index : ℤ → WirelessDeviceList → WirelessDeviceList
delete_index index ds = erase index ds

unfoldable pub list_devices : WirelessDeviceList → List WirelessDevice
list_devices ds = map (λ (e : ℤ × WirelessDevice). e.1) ds
