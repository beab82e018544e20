-- ===== src/Wifi/Power.antt =====
-- The bounds of the power of a signal in cwifi.cc, and when a packet is lost.
use vwifi.Prelude.{◌≡◌, true, false, [], ◌∷◌, arith}
use vwifi.Prelude.Int.{ℤ, pos, negsuc, ◌≤ℤ◌, ◌-ℤ◌}
use vwifi.Prelude.Bytes.{of_le, signed, pattern_of}
use vwifi.Platform.{Platform}
use vwifi.Wifi.{bounded_power, power_min, power_max, packet_is_lost}

-- A bounded power lies between the bounds, is the power itself where that does, and survives the
-- byte that carries it.
pub bounded_power-bounds :
    (power : ℤ)
    → (power_min ≤ℤ bounded_power power)
      × (bounded_power power ≤ℤ power_max)
      × ((power_min ≤ℤ power) → (power ≤ℤ power_max) → bounded_power power ≡ power)
      × (signed 8 (of_le (pattern_of 8 (bounded_power power) ∷ [])) ≡ bounded_power power)
unfolding bounded_power signed pattern_of of_le
bounded_power-bounds power = (ground arith, ground arith, λ h k. ground arith, byte power)
  where
    byte :
        (power : ℤ)
        → signed 8 (of_le (pattern_of 8 (bounded_power power) ∷ [])) ≡ bounded_power power
    byte (pos n) = ground arith
    byte (negsuc n) = ground arith

-- A packet at -39 or above is never lost and one at -92 or below always is, whatever rand gives.
pub packet_is_lost-limits :
    (p : Platform) (level : ℤ) (w : p.World)
    → ((negsuc 38 ≤ℤ level) → (packet_is_lost p level w).0 ≡ false)
      × ((level ≤ℤ negsuc 91) → (packet_is_lost p level w).0 ≡ true)
unfolding packet_is_lost ◌-ℤ◌
packet_is_lost-limits p level w = (λ h. ground arith, λ h. ground arith)
