-- ===== src/Devices/Registered.antt =====
-- cwirelessdevicelist.cc as a function from interface indices to devices, and its search by address.
use mathlib.Core.Path.{fun_ext, subst}
use mathlib.Core.Option.{some-injective}
use vwifi.Prelude.{
  ℕ, ◌≡◌, sym, if_split, ◌∙◌, true, false, Option, none, some, List, [], ◌∷◌, arith,
}
use vwifi.Prelude.Int.{ℤ, ◌≤ℤ◌, eq_of_parts}
use vwifi.Prelude.Ordered.{
  ==_ℤ, lookup, update, IsSorted, Above, insert-IsSorted, erase-IsSorted, lookup-insert,
  lookup-erase, lookup-some_above,
}
use vwifi.Devices.{
  WirelessDevice, WirelessDeviceList, same_bytes, add_device, delete_device, delete_index,
  get_device_by_mac,
}

-- The abstract list: what it holds under each index.
abbrev pub devices_of : WirelessDeviceList → ℤ → Option WirelessDevice
devices_of ds i = lookup i ds

-- The map has each index once, in order, and every device stands under its own index.
pub record IsValid (ds : WirelessDeviceList) : Type 0 where
  pub sorted : IsSorted ds
  pub own_index : (i : ℤ) (d : WirelessDevice) → devices_of ds i ≡ some d → d.index ≡ i

-- A list that is valid and stands for a given function.
pub record Implements (f : ℤ → Option WirelessDevice) (ds : WirelessDeviceList) : Type 0 where
  pub valid : IsValid ds
  pub devices : devices_of ds ≡ f

own_index-update :
    (f : ℤ → Option WirelessDevice) (k : ℤ) (o : Option WirelessDevice)
    → ((i : ℤ) (d : WirelessDevice) → f i ≡ some d → d.index ≡ i)
    → ((d : WirelessDevice) → o ≡ some d → d.index ≡ k)
    → (i : ℤ) (d : WirelessDevice) → update f k o i ≡ some d
    → d.index ≡ i
own_index-update f k o hf ho i d =
    if_split (λ r. r ≡ some d → d.index ≡ i) (==_ℤ k i)
      (λ t e. ho d e ∙ eq_of_parts k i (ground arith)) (λ t e. hf i d e)

pub add_device-Implements :
    (d : WirelessDevice) (ds : WirelessDeviceList)
    → IsValid ds
    → Implements (update (devices_of ds) d.index (some d)) (add_device d ds)
unfolding add_device
add_device-Implements d ds v = record {
  valid = record {
    sorted = insert-IsSorted d.index d ds v.sorted;
    own_index = λ i e h.
        own_index-update (devices_of ds) d.index (some d) v.own_index (λ d' g. cc) i e
          (sym (lookup-insert d.index d ds i) ∙ h);
  };
  devices = fun_ext (lookup-insert d.index d ds);
}

pub delete_index-Implements :
    (i : ℤ) (ds : WirelessDeviceList)
    → IsValid ds
    → Implements (update (devices_of ds) i none) (delete_index i ds)
unfolding delete_index
delete_index-Implements i ds v = record {
  valid = record {
    sorted = erase-IsSorted i ds v.sorted;
    own_index = λ j e h.
        own_index-update (devices_of ds) i none v.own_index (λ d g. cc) j e
          (sym (lookup-erase i ds j v.sorted) ∙ h);
  };
  devices = fun_ext λ j. lookup-erase i ds j v.sorted;
}

pub delete_device-Implements :
    (d : WirelessDevice) (ds : WirelessDeviceList)
    → IsValid ds
    → Implements (update (devices_of ds) d.index none) (delete_device d ds)
unfolding delete_device delete_index
delete_device-Implements d ds v = delete_index-Implements d.index ds v

-- On a list of devices in the order of their indices, each under its own index, adding a device
-- and deleting one keep the list so and are, of the function from indices to devices, the change
-- at the device's index to the device or to nothing.
pub device_changes-Implement :
    (d : WirelessDevice) (ds : WirelessDeviceList)
    → IsValid ds
    → Implements (update (devices_of ds) d.index (some d)) (add_device d ds)
      × Implements (update (devices_of ds) d.index none) (delete_device d ds)
device_changes-Implement d ds v = (add_device-Implements d ds v, delete_device-Implements d ds v)

-- What a search by address over a function from indices to devices answers.
abbrev pub Finds : List ℕ → (ℤ → Option WirelessDevice) → Option WirelessDevice → Type 0
Finds mac f none = (i : ℤ) (d : WirelessDevice) → f i ≡ some d → same_bytes d.macaddr mac ≡ false
Finds mac f (some d) =
    (i : ℤ) × (f i ≡ some d)
    × (same_bytes d.macaddr mac ≡ true)
    × ((j : ℤ) (e : WirelessDevice) → f j ≡ some e → same_bytes e.macaddr mac ≡ true → i ≤ℤ j)

Finds-first :
    (mac : List ℕ) (k : ℤ) (u : WirelessDevice) (rest : WirelessDeviceList)
    → Above k rest
    → same_bytes u.macaddr mac ≡ true
    → Finds mac (devices_of ((k, u) ∷ rest)) (some u)
unfolding lookup
Finds-first mac k u rest a t = (
  k,
  ground arith,
  t,
  λ j e.
      if_split (λ r. r ≡ some e → same_bytes e.macaddr mac ≡ true → k ≤ℤ j) (==_ℤ k j)
        (λ s g h. ground arith) (λ s g h. omega (arith, lookup-some_above k j e rest a g)),
)

Finds-later :
    (mac : List ℕ) (k : ℤ) (u : WirelessDevice) (rest : WirelessDeviceList)
    (r : Option WirelessDevice)
    → Above k rest
    → same_bytes u.macaddr mac ≡ false
    → Finds mac (devices_of rest) r
    → Finds mac (devices_of ((k, u) ∷ rest)) r
unfolding lookup
Finds-later mac k u rest none a t all = λ i d.
    if_split (λ r. r ≡ some d → same_bytes d.macaddr mac ≡ false) (==_ℤ k i)
      (λ s g.
        subst (λ (x : WirelessDevice). same_bytes x.macaddr mac ≡ false) (some-injective u d g) t)
      (λ s g. all i d g)
Finds-later mac k u rest (some d) a t (i, e, m, least) = (
  i,
  ground (arith, lookup-some_above k i d rest a e),
  m,
  λ j e'.
      if_split (λ r. r ≡ some e' → same_bytes e'.macaddr mac ≡ true → i ≤ℤ j) (==_ℤ k j)
        (λ s g h. cc (
          subst (λ (x : WirelessDevice). same_bytes x.macaddr mac ≡ false) (some-injective u e' g)
            t))
        (λ s g h. least j e' g h),
)

-- In a list in the order of its indices get_device_by_mac finds nothing exactly where no device
-- has the address, and otherwise a device that has it and, of those, the lowest index.
pub get_device_by_mac-Finds :
    (mac : List ℕ) (ds : WirelessDeviceList)
    → IsSorted ds
    → Finds mac (devices_of ds) (get_device_by_mac mac ds)
unfolding lookup get_device_by_mac
get_device_by_mac-Finds mac [] s = λ i d e. cc
get_device_by_mac-Finds mac ((k, u) ∷ rest) s =
    if_split (Finds mac (devices_of ((k, u) ∷ rest))) (same_bytes u.macaddr mac)
      (λ t. Finds-first mac k u rest s.0 t)
      (λ t. Finds-later mac k u rest _ s.0 t (get_device_by_mac-Finds mac rest s.1))
