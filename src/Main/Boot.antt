-- ===== src/Main/Boot.antt =====
-- The start-up in main.c. A step is a call on the whole program with its status; each of the four
-- parts goes on after a failure and reports E_NOK at its end. `sei` has no state here.
use smart_parking_system_nti.Prelude.{
  ℕ, some, List, [], ◌∷◌, if◌then◌else◌, ReturnType, e_ok, e_nok, is_ok,
}
use smart_parking_system_nti.Config.{pwm_ch_entry, pwm_ch_exit}
use smart_parking_system_nti.Text.{codes}
use smart_parking_system_nti.Ticketing
use smart_parking_system_nti.Ticketing.{crlf}
use smart_parking_system_nti.Dio
use smart_parking_system_nti.Dio.{port_d, dio_low, dio_output, set_bit}
use smart_parking_system_nti.Board.{Board}
use smart_parking_system_nti.Board.Adc
use smart_parking_system_nti.Board.Pwm
use smart_parking_system_nti.Board.Usart
use smart_parking_system_nti.Board.Timer0
use smart_parking_system_nti.Slots
use smart_parking_system_nti.SevenSeg
use smart_parking_system_nti.SlotLeds
use smart_parking_system_nti.Lcd
use smart_parking_system_nti.Buzzer
use smart_parking_system_nti.Buzzer.{buz_tone_pin}
use smart_parking_system_nti.Buttons
use smart_parking_system_nti.Barrier
use smart_parking_system_nti.Lot
use smart_parking_system_nti.Lot.{set_fault}
use smart_parking_system_nti.Light
use smart_parking_system_nti.Console.Set
use smart_parking_system_nti.Lane
use smart_parking_system_nti.Lane.{Lane, bar_close}
use smart_parking_system_nti.LoopSense
use smart_parking_system_nti.LoopSense.{LoopSense}
use smart_parking_system_nti.Scheduler
use smart_parking_system_nti.Scheduler.{Scheduler, register_task}
use smart_parking_system_nti.Display
use smart_parking_system_nti.Display.{paint_line, i2c_bus}
use smart_parking_system_nti.Main.{System, send, send_uint16, send_event}
use smart_parking_system_nti.Main.Tasks.{
  kept, scan_lot, task_display, btn_exit_pin, btn_maint_pin, fullsign_pin,
}

-- `if (call != E_OK) { result = E_NOK; }` after what ran before
unfoldable pub attempt : {S : Type 0} → ReturnType × S → (S → ReturnType × S) → ReturnType × S
attempt (r, y) call = let (r', y') = call y in ((if is_ok r' then r else e_nok), y')

-- a call on the board alone
abbrev pub on_board : (Board → ReturnType × Board) → System → ReturnType × System
on_board call y =
    let (r, b) = call y.site.board in (r, record y { site = record (y.site) { board = b } })

-- a call whose status is ignored
abbrev pub ignoring : (System → System) → ReturnType × System → ReturnType × System
ignoring call (r, y) = (r, call y)

-- MAIN_DisableJtag: JTD is bit 7, written twice
unfoldable pub disable_jtag : Board → Board
unfolding set_bit
disable_jtag b = record b {
  exti = record (b.exti) { mcucsr = set_bit (set_bit b.exti.mcucsr 7) 7 };
}

-- ADC_REF_AVCC and ADC_PRESC_64 are 1 and 6; the callback is MAIN_OnTick.
unfoldable pub init_mcal : System → ReturnType × System
unfolding attempt Adc.init Pwm.init Usart.init Timer0.init_ctc Timer0.set_callback
init_mcal y =
    let r1 = attempt (e_ok, y) (λ y'. (Adc.init 1 6, y')) in
    let r2 = attempt r1 (on_board Pwm.init) in
    let r3 = attempt r2 (on_board Usart.init) in
    let r4 = attempt r3 (on_board Timer0.init_ctc) in
    attempt r4 (on_board (λ b. Timer0.set_callback b (some 0)))

unfoldable pub init_slots : System → ReturnType × System
unfolding Slots.init
init_slots y =
    let (r, s, io) = Slots.init y.site.slots y.site.board.dio in
    (
      r,
      record y { site = record (y.site) { slots = s; board = record (y.site.board) { dio = io } } },
    )

unfoldable pub init_digit : System → ReturnType × System
unfolding SevenSeg.init
init_digit y =
    let (r, d, io) = SevenSeg.init y.panel.digit y.site.board.dio in
    (
      r,
      record y {
        panel = record (y.panel) { digit = d };
        site = record (y.site) { board = record (y.site.board) { dio = io } };
      },
    )

unfoldable pub init_leds : System → ReturnType × System
unfolding SlotLeds.init
init_leds y =
    let (r, l, s, b) = SlotLeds.init y.panel.leds y.panel.chain y.site.board in
    (
      r,
      record y {
        panel = record (y.panel) { leds = l; chain = s };
        site = record (y.site) { board = b };
      },
    )

unfoldable pub init_lcd : System → ReturnType × System
unfolding Lcd.init
init_lcd y =
    let (r, d, b) = Lcd.init i2c_bus y.panel.lcd y.site.board in
    (r, record y { panel = record (y.panel) { lcd = d }; site = record (y.site) { board = b } })

unfoldable pub init_buzzer : System → ReturnType × System
unfolding Buzzer.init
init_buzzer y =
    let (r, z, b) = Buzzer.init y.site.buzzer y.site.board buz_tone_pin in
    (r, record y { site = record (y.site) { buzzer = z; board = b } })

-- BTN_Init of a pin of port D, active low
unfoldable pub init_button : ℕ → System → ReturnType × System
unfolding Buttons.init
init_button pin y =
    let (r, btns, io) = Buttons.init y.buttons y.site.board.dio port_d pin dio_low in
    (
      r,
      record y {
        buttons = btns;
        site = record (y.site) { board = record (y.site.board) { dio = io } };
      },
    )

-- a call on the digital pins alone
abbrev pub on_pins : (Dio.Dio → ReturnType × Dio.Dio) → System → ReturnType × System
on_pins call = on_board λ b. let (r, io) = call b.dio in (r, record b { dio = io })

unfoldable pub init_hal : System → ReturnType × System
unfolding attempt init_slots init_digit init_leds init_lcd init_buzzer init_button Barrier.init
    bar_close Dio.init Dio.write_pin
init_hal y =
    let r1 = attempt (e_ok, y) init_slots in
    let r2 = attempt r1 init_digit in
    let r3 = attempt r2 init_leds in
    let r4 = attempt r3 init_lcd in
    let r5 = attempt r4 init_buzzer in
    let r6 = attempt r5 (init_button btn_exit_pin) in
    let r7 = attempt r6 (init_button btn_maint_pin) in
    let r8 = attempt r7 (λ y'. (Barrier.init pwm_ch_entry, y')) in
    let r9 = attempt r8 (λ y'. (Barrier.init pwm_ch_exit, y')) in
    let close = λ (c : ℕ) (y' : System). record y' { site = bar_close y'.site c } in
    let r10 = ignoring (close pwm_ch_exit) (ignoring (close pwm_ch_entry) r9) in
    let r11 = attempt r10 (on_pins (λ io. Dio.init io port_d fullsign_pin dio_output)) in
    ignoring (λ y'. (on_pins (λ io. Dio.write_pin io port_d fullsign_pin dio_low) y').1) r11

-- LOT_Init and TKT_Init
unfoldable pub init_lot : System → System
unfolding Lot.init Ticketing.init
init_lot y = record y { site = record (y.site) { lot = Lot.init; tickets = Ticketing.init } }

unfoldable pub init_light : System → ReturnType × System
unfolding Light.init
init_light y = let (r, l) = Light.init in (r, record y { light = l })

unfoldable pub init_console : System → ReturnType × System
unfolding Set.init
init_console y = let (r, g) = Set.init in (r, record y { settings = g })

unfoldable pub init_lanes : System → System
unfolding Lane.init
init_lanes y =
    let (w1, entry) = Lane.init y.site pwm_ch_entry 1 in
    let (w2, exit) = Lane.init w1 pwm_ch_exit 0 in
    record y { site = w2; entry = entry; exit = exit }

-- the two conditioners, on ADC_CHANNEL_0 and ADC_CHANNEL_1
unfoldable pub init_entry_loop : System → ReturnType × System
unfolding LoopSense.init
init_entry_loop y =
    let (r, s) = LoopSense.init (some y.entry_loop) 0 (some y.entry) in
    (r, record y { entry_loop = kept s y.entry_loop })

unfoldable pub init_exit_loop : System → ReturnType × System
unfolding LoopSense.init
init_exit_loop y =
    let (r, s) = LoopSense.init (some y.exit_loop) 1 (some y.exit) in
    (r, record y { exit_loop = kept s y.exit_loop })

unfoldable pub init_app : System → ReturnType × System
unfolding attempt init_lot init_light init_console Display.init init_lanes init_entry_loop
    init_exit_loop
init_app y =
    let r1 = attempt (e_ok, init_lot y) init_light in
    let r2 = attempt r1 init_console in
    let r3 = attempt r2 (λ y'. (Display.init, y')) in
    let r4 = ignoring init_lanes r3 in
    let r5 = attempt r4 init_entry_loop in attempt r5 init_exit_loop

-- the rows of MAIN_InitScheduler: task, period and offset. The tasks are numbered in this order:
-- Task_Lanes, Task_Buttons, Task_Lot, Task_Loops, Task_Console, Task_Display, Task_1Hz and
-- Task_Report.
abbrev pub task_rows : List (ℕ × ℕ × ℕ)
task_rows =
    (0, 1, 0)
    ∷ (1, 1, 0)
    ∷ (2, 5, 1)
    ∷ (3, 5, 3)
    ∷ (4, 2, 4)
    ∷ (5, 25, 5)
    ∷ (6, 100, 7)
    ∷ (7, 500, 11)
    ∷ []

unfoldable pub register_all : List (ℕ × ℕ × ℕ) → ReturnType × Scheduler → ReturnType × Scheduler
unfolding attempt register_task
register_all [] r = r
register_all ((func, period, offset) ∷ rows) r =
    register_all rows (attempt r (λ s. register_task s (some func) period offset))

unfoldable pub init_scheduler : System → ReturnType × System
unfolding Scheduler.init register_all
init_scheduler y = let (r, s) = register_all task_rows Scheduler.init in (r, record y { sched = s })

-- the splash and the first frame
unfoldable pub first_frame : System → System
unfolding paint_line scan_lot task_display
first_frame y =
    let (p, b) =
      paint_line (paint_line (y.panel, y.site.board) 0 (codes "SMART PARKING   ")) 1
        (codes "BOOTING...      ") in
    let y1 = record y { panel = p; site = record (y.site) { board = b } } in
    task_display (record y1 { site = scan_lot y1.site })

-- the events of the start, with the reset cause, and the fail-safe
unfoldable pub announce : ℕ → ReturnType × System → System
unfolding send send_uint16 send_event set_fault
announce cause (r, y) =
    let w1 = send (send_uint16 (send y.site (codes "!EVT,BOOT,CAUSE=")) cause) crlf in
    let w2 = send_event (send_event w1 (codes "BOOT")) (codes "CFG,DEFAULT") in
    let w3 = record w2 { lot = set_fault w2.lot 1 } in
    record y { site = if is_ok r then w2 else send_event w3 (codes "LOT,FAULT,INIT") }

-- the four parts of the start
unfoldable pub initialise : System → ReturnType × System
unfolding attempt init_mcal init_hal init_app init_scheduler
initialise y =
    attempt (attempt (attempt (attempt (e_ok, y) init_mcal) init_hal) init_app) init_scheduler

-- main before the first call of an initialisation
unfoldable pub before_init : System → System
unfolding disable_jtag
before_init y =
    let b = y.site.board in
    let cleared = disable_jtag (record b { exti = record (b.exti) { mcucsr = 0 } }) in
    record y { site = record (y.site) { board = cleared } }

-- main up to the super-loop
unfoldable pub boot : System → System
unfolding before_init initialise first_frame Timer0.start announce
boot y =
    let shown = ignoring first_frame (initialise (before_init y)) in
    announce y.site.board.exti.mcucsr (ignoring (λ y'. (on_board Timer0.start y').1) shown)
