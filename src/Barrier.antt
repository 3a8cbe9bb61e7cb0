-- ===== src/Barrier.antt =====
-- HAL/barrier/barrier.c: a barrier is the servo of one PWM channel.
pub mod Position
use smart_parking_system_nti.Prelude.{
  ℕ, Option, none, some, if◌then◌else◌, ◌!=◌, ◌&&◌, ReturnType, e_ok, e_nok,
}
use smart_parking_system_nti.Config.{pwm_ch_entry, pwm_ch_exit, servo_open_us, servo_closed_us}
use smart_parking_system_nti.Board.{Board}
use smart_parking_system_nti.Board.Pwm.{set_pulse}

unfoldable pub init : ℕ → ReturnType
init channel = if channel != pwm_ch_entry && channel != pwm_ch_exit then e_nok else e_ok

unfoldable pub open_barrier : Board → ℕ → ReturnType × Board
unfolding set_pulse
open_barrier b channel = set_pulse b channel servo_open_us

unfoldable pub close_barrier : Board → ℕ → ReturnType × Board
unfolding set_pulse
close_barrier b channel = set_pulse b channel servo_closed_us

-- The status stored through the pointer, `none` if NULL.
unfoldable pub is_moving : ℕ → Option ℕ → ReturnType × Option ℕ
is_moving channel none = (e_nok, none)
is_moving channel (some old) =
    if channel != pwm_ch_entry && channel != pwm_ch_exit then (e_nok, some old) else (e_ok, some 0)
