-- ===== src/Lot/Modes.antt =====
-- The mode of the lot and the authority to enter (APP/lot/lot_fsm.c).
use smart_parking_system_nti.Prelude.{
  ℕ, ◌+◌, ◌≡◌, ◌≢◌, refl, ap, ◌∙◌, if◌then◌else◌, ◌==◌, arith, not, ◌&&◌, flag, ltb,
}
use smart_parking_system_nti.Dio.{Dio}
use smart_parking_system_nti.Slots
use smart_parking_system_nti.Slots.{Slots, poll}
use smart_parking_system_nti.Slots.Count.{occupied_slots}
use smart_parking_system_nti.Lot.{
  Lot, LotState, initial, operational, full, maintenance, fault, is_operational, is_maintenance,
  is_fault, open_mode, run, can_authorise_entry, set_maintenance, set_fault,
}
use smart_parking_system_nti.Lot.Counts.{IsCounted, IsSixBit, run-IsCounted}

-- Maintenance and a fault outlast every scan; in any other mode the lot is full exactly when no
-- slot is free.
pub run_mode :
    (l : Lot) (s : Slots) (io : Dio)
    → let l' = (run l s io).0 in
      (l.state ≡ maintenance → l'.state ≡ maintenance)
      × (l.state ≡ fault → l'.state ≡ fault)
      × (l.state ≢ maintenance → l.state ≢ fault → l'.state ≡ open_mode l'.free_slots)
unfolding run poll
run_mode l s io = ground arith

-- The mode after a scan, as `run_mode` states it, and the counts decide.
authorised_by_mode :
    (before after : LotState) (free occupied : ℕ)
    → free + occupied ≡ 6
    → (before ≡ maintenance → after ≡ maintenance)
    → (before ≡ fault → after ≡ fault)
    → (before ≢ maintenance → before ≢ fault → after ≡ open_mode free)
    → flag (is_operational after && ltb 0 free)
      ≡ flag (not (is_maintenance before) && not (is_fault before) && ltb occupied 6)
authorised_by_mode maintenance after free occupied sum m f o = ground (arith, m refl)
authorised_by_mode fault after free occupied sum m f o = ground (arith, f refl)
authorised_by_mode initial after free occupied sum m f o = ground (arith, o (λ e. cc) (λ e. cc))
authorised_by_mode operational after free occupied sum m f o = ground (arith, o (λ e. cc) (λ e. cc))
authorised_by_mode full after free occupied sum m f o = ground (arith, o (λ e. cc) (λ e. cc))

-- After a scan, entry is authorised exactly when the lot is neither in maintenance nor in fault
-- and the published map shows fewer than six occupied slots.
pub entry_authorised :
    (l : Lot) (s : Slots) (io : Dio)
    → IsSixBit s
    → IsCounted l
    → let (l', s') = run l s io in
      can_authorise_entry l'
      ≡ flag (
          not (is_maintenance l.state)
          && not (is_fault l.state)
          && ltb (occupied_slots (Slots.get_map s')) 6)
unfolding can_authorise_entry
entry_authorised l s io v c =
    let (l', s') = run l s io in
    let (counts, six, same) = run-IsCounted l s io v c in
    let (m, f, o) = run_mode l s io in
    let decided =
      authorised_by_mode l.state l'.state l'.free_slots l'.occupied_slots counts.total m f o in
    let shown = counts.occupied ∙ ap occupied_slots same in
    decided
    ∙ ap (λ n. flag (not (is_maintenance l.state) && not (is_fault l.state) && ltb n 6)) shown

-- Leaving maintenance or clearing a fault puts the lot in the mode that its free count gives, and
-- entering either leaves the counts alone.
pub set_mode :
    (l : Lot) (enabled : ℕ)
    → ((set_maintenance l enabled).state
        ≡ (if enabled == 0 then open_mode l.free_slots else maintenance))
      × ((set_fault l enabled).state ≡ (if enabled == 0 then open_mode l.free_slots else fault))
      × (IsCounted l → IsCounted (set_maintenance l enabled) × IsCounted (set_fault l enabled))
unfolding set_maintenance set_fault
set_mode l enabled = (ground arith, ground arith, λ c. ground arith)
