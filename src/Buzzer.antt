-- ===== src/Buzzer.antt =====
-- HAL/buzzer/buzzer.c: the tone, and the beep sequencer that the 10 ms task drives.
pub mod Sequence
pub mod Beep
use smart_parking_system_nti.Prelude.{
  ℕ, ◌+◌, ◌/◌, ◌%◌, ◌||◌, if◌then◌else◌, ltb, leb, ◌==◌, ◌!=◌, u8, u16, ReturnType, e_ok, e_nok,
}
use smart_parking_system_nti.Board.{Board}
use smart_parking_system_nti.Board.Tone

-- the module's static variables
pub record Buzzer : Type 0 where
  pub pin : ℕ
  pub active : ℕ
  pub state : ℕ
  pub beep_count : ℕ
  pub target_beep_count : ℕ
  pub tick_count : ℕ
  pub ticks_per_phase : ℕ
  pub elapsed_ms : ℕ
  pub duration_ms : ℕ

abbrev pub buz_tone_pin : ℕ
buz_tone_pin = 7

abbrev pub buz_tick_ms : ℕ
buz_tick_ms = 10

unfoldable pub init : Buzzer → Board → ℕ → ReturnType × Buzzer × Board
unfolding Tone.init
init z b pin = if pin != buz_tone_pin then (e_nok, z, b) else (
  e_ok,
  record {
    pin = pin;
    active = 0;
    state = 0;
    beep_count = 0;
    target_beep_count = 0;
    tick_count = z.tick_count;
    ticks_per_phase = z.ticks_per_phase;
    elapsed_ms = 0;
    duration_ms = 0;
  },
  (Tone.init b).1,
)

unfoldable pub turn_on : Board → ℕ → ReturnType × Board
unfolding Tone.start
turn_on b pin = if pin != buz_tone_pin then (e_nok, b) else Tone.start b

unfoldable pub turn_off : Board → ℕ → ReturnType × Board
unfolding Tone.stop
turn_off b pin = if pin != buz_tone_pin then (e_nok, b) else Tone.stop b

unfoldable pub beep : Buzzer → Board → ℕ → ℕ → ℕ → ReturnType × Buzzer × Board
unfolding turn_on
beep z b pin times ms =
    if z.active == 1
    then (e_nok, z, b)
    else if times == 0 || ms == 0
    then (e_nok, z, b)
    else if pin != z.pin
    then (e_nok, z, b)
    else if ms % buz_tick_ms != 0
    then (e_nok, z, b)
    else (
      e_ok,
      record z {
        active = 1;
        state = 1;
        beep_count = 0;
        target_beep_count = times;
        tick_count = 0;
        ticks_per_phase = ms / buz_tick_ms;
      },
      (turn_on b z.pin).1,
    )

-- the end of a phase: on to off, off to on, or done
phase_end : Buzzer → Board → Buzzer × Board
unfolding turn_on turn_off
phase_end z b =
    if z.state == 1
    then (record z { state = 0; beep_count = u8 (z.beep_count + 1) }, (turn_off b z.pin).1)
    else if leb z.target_beep_count z.beep_count
    then (record z { active = 0 }, b)
    else (record z { state = 1 }, (turn_on b z.pin).1)

unfoldable pub update : Buzzer → Board → ReturnType × Buzzer × Board
unfolding phase_end
update z b =
    let counted = u16 (z.tick_count + 1) in
    if z.active == 0
    then (e_ok, z, b)
    else if ltb counted z.ticks_per_phase
    then (e_ok, record z { tick_count = counted }, b)
    else let (z', b') = phase_end (record z { tick_count = 0 }) b in (e_ok, z', b')
