-- ===== src/Lot/Counts.antt =====
-- The counts of APP/lot/lot_fsm.c against the slot map.
use smart_parking_system_nti.Prelude.{
  ℕ, ◌+◌, ◌<◌, ◌≤◌, ◌≡◌, refl, sym, ap, ◌∙◌, subst, arith, all_below, agree_below, true, ◌==◌,
}
use smart_parking_system_nti.Dio.{Dio}
use smart_parking_system_nti.Slots
use smart_parking_system_nti.Slots.{Slots, sample, raw_map, poll}
use smart_parking_system_nti.Slots.Count.{occupied_slots, raw_map-lt, occupied_slots-le}
use smart_parking_system_nti.Lot.{Lot, popcount6, init, run, counted}

popcount6_table : all_below 64 (λ m. popcount6 m == occupied_slots m) ≡ true
unfolding all_below popcount6 occupied_slots
popcount6_table = refl

-- Without the mask the expression still counts the set bits of every six-bit map.
pub popcount6_lem : (map : ℕ) → map < 64 → popcount6 map ≡ occupied_slots map
popcount6_lem = agree_below 64 popcount6 occupied_slots popcount6_table

-- the debounce holds six-bit maps
pub record IsSixBit (s : Slots) : Type 0 where
  pub published : s.published_map < 64
  pub timed : s.candidate < 64

pub sample-IsSixBit : (s : Slots) (raw : ℕ) → raw < 64 → IsSixBit s → IsSixBit (sample s raw)
unfolding sample
sample-IsSixBit s raw h v = ground arith

pub poll-IsSixBit : (s : Slots) (io : Dio) → IsSixBit s → IsSixBit (poll s io).1
unfolding poll
poll-IsSixBit s io v = sample-IsSixBit s (raw_map io.c.pin) (raw_map-lt io.c.pin) v

-- FREE and OCC agree with the map and add up to the number of slots, and the peak is no less
-- than the present occupancy.
pub record IsCounted (l : Lot) : Type 0 where
  pub map_in : l.slot_map < 64
  pub occupied : l.occupied_slots ≡ occupied_slots l.slot_map
  pub total : l.free_slots + l.occupied_slots ≡ 6
  pub peak : l.occupied_slots ≤ l.peak_occupancy
  pub peak_in : l.peak_occupancy ≤ 6

-- The counts of a new map need nothing of the old ones but a peak in range.
counted-IsCounted :
    (l : Lot) (map : ℕ) → map < 64 → l.peak_occupancy ≤ 6 → IsCounted (counted l map)
unfolding counted
counted-IsCounted l map h p = ground (arith, popcount6_lem map, occupied_slots-le map)

pub init-IsCounted : IsCounted init
unfolding init occupied_slots
init-IsCounted = omega arith

run_is_counted :
    (l : Lot) (s : Slots) (io : Dio)
    → let (l', s') = run l s io in
      (l'.slot_map ≡ (counted l s'.published_map).slot_map)
      × (l'.free_slots ≡ (counted l s'.published_map).free_slots)
      × (l'.occupied_slots ≡ (counted l s'.published_map).occupied_slots)
      × (l'.peak_occupancy ≡ (counted l s'.published_map).peak_occupancy)
      × (s' ≡ (poll s io).1)
unfolding run counted poll Slots.get_map
run_is_counted l s io = ground arith

-- The counts do not depend on the mode.
same-IsCounted :
    (l m : Lot)
    → l.slot_map ≡ m.slot_map
    → l.free_slots ≡ m.free_slots
    → l.occupied_slots ≡ m.occupied_slots
    → l.peak_occupancy ≡ m.peak_occupancy
    → IsCounted m
    → IsCounted l
same-IsCounted l m a b c d v = record {
  map_in = omega (arith, v);
  occupied = c ∙ v.occupied ∙ ap occupied_slots (sym a);
  total = omega (arith, v);
  peak = omega (arith, v);
  peak_in = omega (arith, v);
}

-- A scan of the slots keeps the bitmap six bits wide and leaves counts that describe the
-- published map and add up to six, in every mode.
pub run-IsCounted :
    (l : Lot) (s : Slots) (io : Dio)
    → IsSixBit s
    → IsCounted l
    → let (l', s') = run l s io in IsCounted l' × IsSixBit s' × (l'.slot_map ≡ Slots.get_map s')
unfolding Slots.get_map counted
run-IsCounted l s io v c =
    let (l', s') = run l s io in
    let (m, f, o, k, polled) = run_is_counted l s io in
    let six = subst IsSixBit (sym polled) (poll-IsSixBit s io v) in
    let fits = counted-IsCounted l s'.published_map six.published c.peak_in in
    (same-IsCounted l' (counted l s'.published_map) m f o k fits, six, m)
