-- ===== src/Tests/Lanes.antt =====
-- The theorems on the lanes and the lot, on the installation of the fixtures.
use smart_parking_system_nti.Prelude.{
  ℕ, ◌<◌, ◌≡◌, ◌≢◌, refl, arith, replicate, length-replicate, [], ◌∷◌, ◌⊎◌, flag, ltb,
}
use smart_parking_system_nti.Config.{servo_open_us}
use smart_parking_system_nti.Barrier.Position.{pulse}
use smart_parking_system_nti.Barrier.{open_barrier}
use smart_parking_system_nti.Ticketing.{on_entry_authorized, find_free_row, print_entry_frame}
use smart_parking_system_nti.Slots
use smart_parking_system_nti.Slots.Count.{occupied_slots}
use smart_parking_system_nti.Lot
use smart_parking_system_nti.Lot.{
  can_authorise_entry, is_maintenance, is_fault, maintenance, fault, open_mode,
}
use smart_parking_system_nti.Lot.Counts.{IsCounted, IsSixBit}
use smart_parking_system_nti.Lot.Modes.{entry_authorised}
use smart_parking_system_nti.Lane.{
  Lane, idle, authorising, gate_opening, vehicle_passing, timeout, run,
}
use smart_parking_system_nti.Lane.Gate.{gate_pulse, run_gate}
use smart_parking_system_nti.Lane.Steps.{opens_only_authorised}
use smart_parking_system_nti.Lane.Progress.{ticks, idle_within_701, passing_times_out}
use smart_parking_system_nti.Lane.Tickets.{IsSettled, run_registers}
use smart_parking_system_nti.Site.{Site}
use smart_parking_system_nti.Tests.Fixtures.{pins, slots, lot, site, full_table, entry_lane}

run_gate_example :
    let (w', ln') = run site (entry_lane authorising 0 1) in
    (pulse w'.board ln'.servo_ch ≡ gate_pulse ln'.state)
    × (ln'.servo_ch ≡ 0)
    × ((other : ℕ) → other < 2 → other ≢ 0 → pulse w'.board other ≡ pulse site.board other)
unfolding pulse
run_gate_example = run_gate site (entry_lane authorising 0 1) (omega arith) refl

authorised_now : pulse (run site (entry_lane authorising 0 1)).0.board 0 ≡ servo_open_us
unfolding run pulse can_authorise_entry open_barrier on_entry_authorized find_free_row
    print_entry_frame
authorised_now = refl

opens_only_authorised_example :
    (authorising ≡ authorising) × ((◌≡◌ {A = ℕ} 1 0) ⊎ (can_authorise_entry lot ≢ 0))
unfolding pulse
opens_only_authorised_example =
    opens_only_authorised site (entry_lane authorising 0 1) (omega arith) tt refl refl
      authorised_now

abbrev site_full : Site
site_full = record site { tickets = full_table }

-- an exit lane that is authorising, with one ticket open
abbrev exit_lane : Lane
exit_lane = record (entry_lane authorising 0 1) { servo_ch = 1; is_entry = 0 }

run_registers_example :
    let (w', ln') = run site exit_lane in
    IsSettled site w'.billing w'.tickets × (ln'.state ≡ gate_opening)
run_registers_example =
    (run_registers site exit_lane refl (omega arith) (omega arith) (omega arith)).1 refl refl

idle_within_701_example : (ticks (replicate 701 site) (entry_lane gate_opening 100 0)).state ≡ idle
idle_within_701_example =
    idle_within_701 (replicate 701 site) (entry_lane gate_opening 100 0) (omega arith) refl
      (omega (arith, length-replicate {0} 701 site))

passing_times_out_example :
    let ln' = ticks (site ∷ site ∷ []) (entry_lane vehicle_passing 2 1) in
    (ln'.state ≡ timeout) × (ln'.fault_flag ≡ 1)
passing_times_out_example =
    (passing_times_out 1 (site ∷ site ∷ []) (entry_lane vehicle_passing 2 1) refl (λ e. cc) refl
        (omega arith)).1
      refl

slots_six : IsSixBit slots
slots_six = omega arith

lot-IsCounted : IsCounted lot
unfolding occupied_slots
lot-IsCounted = omega arith

entry_authorised_example :
    can_authorise_entry (Lot.run lot slots pins).0
    ≡ flag (ltb (occupied_slots (Slots.get_map (Lot.run lot slots pins).1)) 6)
entry_authorised_example = entry_authorised lot slots pins slots_six lot-IsCounted
