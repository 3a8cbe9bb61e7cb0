-- ===== src/Board/Tone.antt =====
-- MCAL/tone/tone.c: the tone that Timer2 toggles on PD7.
use smart_parking_system_nti.Prelude.{ℕ, ReturnType, e_ok}
use smart_parking_system_nti.Dio.{Dio, set_bit, clear_bit}
use smart_parking_system_nti.Board.{Board}

-- WGM21, and WGM21 | COM20 | CS22
abbrev pub tone_idle : ℕ
tone_idle = 0x08

abbrev pub tone_running : ℕ
tone_running = 0x1C

-- `PORTD &= ~(1 << 7)` on the pin that the driver shares with dio.c
pin_low : Dio → Dio
unfolding clear_bit
pin_low io = record io { d = record (io.d) { port = clear_bit io.d.port 7 } }

unfoldable pub init : Board → ReturnType × Board
unfolding pin_low set_bit
init b =
    let io = record (b.dio) { d = record (b.dio.d) { ddr = set_bit b.dio.d.ddr 7 } } in
    (
      e_ok,
      record b { dio = pin_low io; timer2 = record { tccr2 = tone_idle; tcnt2 = 0; ocr2 = 31 } },
    )

unfoldable pub start : Board → ReturnType × Board
start b = (e_ok, record b { timer2 = record (b.timer2) { tccr2 = tone_running } })

unfoldable pub stop : Board → ReturnType × Board
unfolding pin_low
stop b = (e_ok, record b { timer2 = record (b.timer2) { tccr2 = tone_idle }; dio = pin_low b.dio })
