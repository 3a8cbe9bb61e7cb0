-- ===== src/Board/Timer0.antt =====
-- MCAL/timer/timer.c: Timer0 in CTC mode, whose compare interrupt is the system tick.
use smart_parking_system_nti.Prelude.{
  ℕ, ◌-◌, bit_and, bit_or, Option, none, some, ReturnType, e_ok, e_nok,
}
use smart_parking_system_nti.Dio.{set_bit}
use smart_parking_system_nti.Board.{Board}

-- the bits CS00 to CS02, and those of prescaler 1024
abbrev pub clock_bits : ℕ
clock_bits = 7

abbrev pub prescaler_1024 : ℕ
prescaler_1024 = 5

unfoldable pub init_ctc : Board → ReturnType × Board
unfolding set_bit
init_ctc b = (
  e_ok,
  record b {
    timer0 = record (b.timer0) {
      tccr0 = 8;
      tcnt0 = 0;
      ocr0 = 77;
      timsk = set_bit b.timer0.timsk 1;
      tifr = 2;
    };
  },
)

unfoldable pub start : Board → ReturnType × Board
start b = (
  e_ok,
  record b {
    timer0 = record (b.timer0) {
      tccr0 = bit_or (bit_and b.timer0.tccr0 (255 - clock_bits)) prescaler_1024;
    };
  },
)

unfoldable pub stop : Board → ReturnType × Board
stop b = (
  e_ok,
  record b { timer0 = record (b.timer0) { tccr0 = bit_and b.timer0.tccr0 (255 - clock_bits) } },
)

unfoldable pub set_compare : Board → ℕ → ReturnType × Board
set_compare b value = (e_ok, record b { timer0 = record (b.timer0) { ocr0 = value } })

unfoldable pub set_callback : Board → Option ℕ → ReturnType × Board
set_callback b none = (e_nok, b)
set_callback b (some f) = (e_ok, record b { timer0 = record (b.timer0) { callback = some f } })

-- the compare interrupt: the function that it calls
unfoldable pub on_compare : Board → Option ℕ
on_compare b = b.timer0.callback
