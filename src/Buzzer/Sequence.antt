-- ===== src/Buzzer/Sequence.antt =====
-- The beep sequencer of HAL/buzzer/buzzer.c over the calls of its 10 ms task.
use smart_parking_system_nti.Prelude.{◌+◌, ◌≡◌, refl, ◌==◌, ◌!=◌, ltb, leb, choose, u16, ReturnType}
use smart_parking_system_nti.Board.{Board, undisturbed}
use smart_parking_system_nti.Buzzer.{Buzzer, turn_on, turn_off, phase_end, update}

phase_end-undisturbed : (z : Buzzer) (b : Board) → undisturbed (phase_end z b).1 ≡ undisturbed b
unfolding phase_end turn_on turn_off
phase_end-undisturbed z b =
    let Same : Buzzer × Board → Type 0 = λ r. undisturbed r.1 ≡ undisturbed b in
    let Kept : ReturnType × Board → Type 0 = λ r. undisturbed r.1 ≡ undisturbed b in
    choose Same (z.state == 1) (choose Kept (z.pin != 7) refl refl)
      (choose Same (leb z.target_beep_count z.beep_count) refl (choose Kept (z.pin != 7) refl refl))

pub update-undisturbed : (z : Buzzer) (b : Board) → undisturbed (update z b).2 ≡ undisturbed b
unfolding update
update-undisturbed z b =
    let Same : ReturnType × Buzzer × Board → Type 0 = λ r. undisturbed r.2 ≡ undisturbed b in
    choose Same (z.active == 0) refl (
      choose Same (ltb (u16 (z.tick_count + 1)) z.ticks_per_phase) refl
        (phase_end-undisturbed (record z { tick_count = 0 }) b))
