-- ===== src/Main/Sound/Fresh.antt =====
-- The start of the program leaves its data in their ranges (main in main.c up to its super-loop).
use smart_parking_system_nti.Prelude.{
  ℕ, ◌<◌, ◌≤◌, sym, subst, choose, length, arith, ReturnType, e_ok, is_ok,
}
use smart_parking_system_nti.Board.Timer0
use smart_parking_system_nti.Board.Usart.{send_string}
use smart_parking_system_nti.Dio
use smart_parking_system_nti.Dio.{Dio}
use smart_parking_system_nti.Slots
use smart_parking_system_nti.Slots.{Slots}
use smart_parking_system_nti.Lot.Counts.{IsSixBit, init-IsCounted}
use smart_parking_system_nti.Lot.Modes.{set_mode}
use smart_parking_system_nti.Ticketing.Valid.{init-IsValid}
use smart_parking_system_nti.Billing.Bounds.{IsBounded}
use smart_parking_system_nti.Console.Set
use smart_parking_system_nti.Console.Ranges.{IsInRange}
use smart_parking_system_nti.Lane
use smart_parking_system_nti.Lane.Sound.{IsSiteSound}
use smart_parking_system_nti.Main.{System, send, send_uint16, send_event}
use smart_parking_system_nti.Main.Boot.{
  attempt, boot, before_init, initialise, on_board, init_mcal, init_hal, init_app, init_lanes,
  init_lot, init_light, init_console, init_entry_loop, init_exit_loop, init_scheduler, first_frame,
  announce,
}
use smart_parking_system_nti.Display.{paint_line}
use smart_parking_system_nti.Text.{codes}
use smart_parking_system_nti.Main.Tasks.{scan_lot}
use smart_parking_system_nti.Main.Start.{attempt-state}
use smart_parking_system_nti.Main.Sound.Tasks.{IsSound, display-IsSound, scan_lot-IsSiteSound}

-- what no initialisation sets, and the static initialisers leave in range
abbrev pub IsFresh : System → Type 0
IsFresh y =
    (y.site.rtc.uptime_sec < 4294967296)
    × IsSixBit y.site.slots
    × IsBounded y.site.billing
    × (length y.glue.line ≤ 24)

slots-IsSixBit : (s : Slots) (io : Dio) → IsSixBit (Slots.init s io).1
unfolding Slots.init Slots.boot Dio.init
slots-IsSixBit s io = record { published = omega arith; timed = omega arith }

mcal-IsFresh : (y : System) → IsFresh y → IsFresh (init_mcal y).1
unfolding init_mcal attempt
mcal-IsFresh y f = f

hal-IsFresh : (y : System) → IsFresh y → IsFresh (init_hal y).1
unfolding init_hal attempt
hal-IsFresh y (clock, six, low, line) =
    (clock, slots-IsSixBit y.site.slots y.site.board.dio, low, line)

settings-IsInRange : IsInRange Set.init.1
unfolding Set.init
settings-IsInRange = omega arith

app-IsSound : (y : System) → IsFresh y → IsSound (init_app y).1
unfolding init_app attempt init_lot init_light init_console init_lanes Lane.init Lane.bar_close
    init_entry_loop init_exit_loop
app-IsSound y (clock, six, low, line) =
    ((init-IsValid, clock, six, init-IsCounted, low), settings-IsInRange, tt, tt, line)

scheduler-IsSound : (y : System) → IsSound y → IsSound (init_scheduler y).1
unfolding init_scheduler
scheduler-IsSound y s = s

initialise-IsSound : (y : System) → IsFresh y → IsSound (initialise y).1
unfolding initialise
initialise-IsSound y f =
    let r1 = attempt (e_ok, y) init_mcal in
    let r2 = attempt r1 init_hal in
    let r3 = attempt r2 init_app in
    let f1 = subst IsFresh (sym (attempt-state (e_ok, y) init_mcal)) (mcal-IsFresh y f) in
    let f2 = subst IsFresh (sym (attempt-state r1 init_hal)) (hal-IsFresh r1.1 f1) in
    let s3 = subst IsSound (sym (attempt-state r2 init_app)) (app-IsSound r2.1 f2) in
    subst IsSound (sym (attempt-state r3 init_scheduler)) (scheduler-IsSound r3.1 s3)

frame-IsSound : (y : System) → IsSound y → IsSound (first_frame y)
unfolding first_frame
frame-IsSound y (v, set, entry, exit, line) =
    let p1 = paint_line (y.panel, y.site.board) 0 (codes "SMART PARKING   ") in
    let (p, b) = paint_line p1 1 (codes "BOOTING...      ") in
    let y1 = record y { panel = p; site = record (y.site) { board = b } } in
    display-IsSound (record y1 { site = scan_lot y1.site })
      (scan_lot-IsSiteSound y1.site v, set, entry, exit, line)

announce-IsSound : (cause : ℕ) (r : ReturnType × System) → IsSound r.1 → IsSound (announce cause r)
unfolding announce send send_uint16 send_event send_string
announce-IsSound cause (r, y) (v, set, entry, exit, line) =
    let failed = ((set_mode y.site.lot 1).2 v.3).1 in
    (choose IsSiteSound (is_ok r) v (v.0, v.1, v.2, failed, v.4), set, entry, exit, line)

start_timer-IsSound : (y : System) → IsSound y → IsSound (on_board Timer0.start y).1
unfolding Timer0.start
start_timer-IsSound y s = s

-- Whatever fails on the way, the start leaves the data in their ranges.
pub boot-IsSound : (y : System) → IsFresh y → IsSound (boot y)
unfolding boot before_init
boot-IsSound y f =
    let up = initialise (before_init y) in
    let framed = first_frame up.1 in
    let started = (on_board Timer0.start framed).1 in
    announce-IsSound y.site.board.exti.mcucsr (up.0, started)
      (start_timer-IsSound framed (frame-IsSound up.1 (initialise-IsSound (before_init y) f)))
