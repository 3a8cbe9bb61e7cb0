-- ===== src/Barrier/Position.antt =====
-- The servo pulses of the two barriers (HAL/barrier/barrier.c).
use smart_parking_system_nti.Prelude.{ℕ, ◌≡◌, arith, if◌then◌else◌, ◌==◌, ◌⊎◌, e_ok, e_nok, ◌<◌}
use smart_parking_system_nti.Config.{servo_open_us, servo_closed_us}
use smart_parking_system_nti.Board.{Board}
use smart_parking_system_nti.Board.Pwm.{set_pulse}
use smart_parking_system_nti.Barrier.{open_barrier, close_barrier}

-- the pulse width that the servo of a channel is driven with
unfoldable pub pulse : Board → ℕ → ℕ
pulse b channel = if channel == 0 then b.timer1.ocr1a else b.timer1.ocr1b

-- Opening or closing the barrier of one channel drives its servo to the open or the closed pulse
-- width and leaves the servo of the other channel where it is.
pub move_barrier_lem :
    (b : Board) (c other : ℕ)
    → c < 2
    → other < 2
    → ((open_barrier b c).0 ≡ e_ok)
      × (pulse (open_barrier b c).1 other ≡ (if other == c then servo_open_us else pulse b other))
      × ((close_barrier b c).0 ≡ e_ok)
      × (pulse (close_barrier b c).1 other
          ≡ (if other == c then servo_closed_us else pulse b other))
unfolding open_barrier close_barrier pulse
move_barrier_lem b c other hc ho = ground arith

-- A pulse width outside the two servo positions, or a channel that is neither barrier, is refused
-- and moves nothing; every other request is accepted.
pub set_pulse_guard :
    (b : Board) (c us : ℕ)
    → ((set_pulse b c us ≡ (e_nok, b)) × ((us < servo_closed_us) ⊎ (servo_open_us < us) ⊎ (1 < c)))
      ⊎ (((set_pulse b c us).0 ≡ e_ok) × (pulse (set_pulse b c us).1 c ≡ us))
unfolding set_pulse pulse
set_pulse_guard b c us = ground arith
