-- ===== src/Board/Pwm.antt =====
-- MCAL/pwm/pwm.c: the two servo channels of Timer1.
use smart_parking_system_nti.Prelude.{
  ℕ, ◌+◌, ◌*◌, ◌/◌, ◌%◌, bit_or, if◌then◌else◌, ltb, ◌==◌, ◌||◌, ReturnType, e_ok, e_nok,
}
use smart_parking_system_nti.Config.{servo_closed_us, servo_open_us, pwm_ch_entry, pwm_ch_exit}
use smart_parking_system_nti.Board.{Board}

-- a 16-bit register after its high byte and its low byte are written
abbrev pub word_register : ℕ → ℕ
word_register us = us / 256 % 256 * 256 + us % 256

abbrev pub pwm_top : ℕ
pwm_top = 19999

-- the bits of `DDRD`, `TCCR1A` and `TCCR1B` as the numbers that the shifts give
unfoldable pub init : Board → ReturnType × Board
init b = (
  e_ok,
  record b {
    dio = record (b.dio) { d = record (b.dio.d) { ddr = bit_or b.dio.d.ddr 0x30 } };
    timer1 = record {
      tccr1a = 0xA2;
      tccr1b = 0x1A;
      icr1 = word_register pwm_top;
      ocr1a = word_register servo_closed_us;
      ocr1b = word_register servo_closed_us;
    };
  },
)

unfoldable pub set_pulse : Board → ℕ → ℕ → ReturnType × Board
set_pulse b channel us =
    if ltb us servo_closed_us || ltb servo_open_us us
    then (e_nok, b)
    else if channel == pwm_ch_entry
    then (e_ok, record b { timer1 = record (b.timer1) { ocr1a = word_register us } })
    else if channel == pwm_ch_exit
    then (e_ok, record b { timer1 = record (b.timer1) { ocr1b = word_register us } })
    else (e_nok, b)
