-- ===== src/Slots/Count.antt =====
-- The bit count of HAL/slots/slots.c.
use native.Mathlib.Decide.{dec_lt}
use smart_parking_system_nti.Prelude.{
  ℕ, ◌+◌, ◌-◌, ◌/◌, ◌<◌, ◌≤◌, ◌≡◌, refl, arith, all_below, agree_below, bit, true, ◌==◌,
}
use smart_parking_system_nti.Slots.{popcount6, raw_map}

-- how many of the six slots a map marks
unfoldable pub occupied_slots : ℕ → ℕ
occupied_slots map = bit map 0 + bit map 1 + bit map 2 + bit map 3 + bit map 4 + bit map 5

popcount6_table : all_below 256 (λ m. popcount6 m == occupied_slots m) ≡ true
unfolding all_below popcount6 occupied_slots
popcount6_table = refl

-- For every byte the counting expression gives the number of its low six bits that are set.
pub popcount6_lem : (map : ℕ) → map < 256 → popcount6 map ≡ occupied_slots map
popcount6_lem = agree_below 256 popcount6 occupied_slots popcount6_table

raw_map_table : all_below 256 (λ p. raw_map p == 63 - p / 4) ≡ true
unfolding all_below raw_map
raw_map_table = refl

pub raw_map_lem : (port : ℕ) → port < 256 → raw_map port ≡ 63 - port / 4
raw_map_lem = agree_below 256 raw_map (λ p. 63 - p / 4) raw_map_table

-- the map has six bits, whatever the port reads
pub raw_map-lt : (port : ℕ) → raw_map port < 64
unfolding raw_map
raw_map-lt port = elim (dec_lt port 256) [
  | yes h ↦ omega (arith, raw_map_lem port h)
  | no h ↦ let none_left : 255 - port ≡ 0 = omega arith in rw none_left (omega arith)
]

pub occupied_slots-le : (map : ℕ) → occupied_slots map ≤ 6
unfolding occupied_slots
occupied_slots-le map = omega arith
