-- ===== src/Main/Start.antt =====
-- The barriers at the start of the program (main in main.c up to its super-loop).
use smart_parking_system_nti.Prelude.{
  ℕ, ◌≡◌, refl, sym, ap, subst, ◌∙◌, choose, ReturnType, e_ok, is_ok,
}
use smart_parking_system_nti.Config.{servo_closed_us}
use smart_parking_system_nti.Text.{codes}
use smart_parking_system_nti.Board.{Timer1, undisturbed}
use smart_parking_system_nti.RingBuffer.{RingBuffer}
use smart_parking_system_nti.Board.Timer0
use smart_parking_system_nti.Board.Usart.{send_string}
use smart_parking_system_nti.Barrier.{close_barrier}
use smart_parking_system_nti.Barrier.Position.{pulse}
use smart_parking_system_nti.Site.{Site}
use smart_parking_system_nti.Lane
use smart_parking_system_nti.Lane.{idle, bar_close}
use smart_parking_system_nti.Lane.Gate.{gate_pulse}
use smart_parking_system_nti.Display.{paint_line}
use smart_parking_system_nti.Display.Keeps.{undisturbed-paint}
use smart_parking_system_nti.Main.{System, Glue, send, send_event}
use smart_parking_system_nti.Main.Tasks.{scan_lot}
use smart_parking_system_nti.Main.Quiet.{IsQuiet, display-IsQuiet, undisturbed-send_uint16}
use smart_parking_system_nti.Main.Rounds.{IsSafe}
use smart_parking_system_nti.Main.Boot.{
  attempt, boot, before_init, initialise, on_board, init_mcal, init_hal, init_app, init_lanes,
  init_lot, init_light, init_console, init_entry_loop, init_exit_loop, init_scheduler, first_frame,
  announce,
}

-- both lanes idle behind closed barriers, outside maintenance
abbrev pub IsShut : System → Type 0
IsShut y =
    (pulse y.site.board 0 ≡ servo_closed_us)
    × (pulse y.site.board 1 ≡ servo_closed_us)
    × (y.entry.state ≡ idle)
    × (y.exit.state ≡ idle)
    × (y.entry.servo_ch ≡ 0)
    × (y.exit.servo_ch ≡ 1)
    × (y.glue.in_maintenance ≡ 0)

quiet-IsShut : (y y' : System) → IsQuiet y y' → IsShut y → IsShut y'
unfolding pulse
quiet-IsShut y y' (servos, entry, exit, entry_ch, exit_ch, mode) (g0, g1, s0, s1, c0, c1, out) = (
  ap (λ (r : Timer1 × RingBuffer). r.0.ocr1a) servos ∙ g0,
  ap (λ (r : Timer1 × RingBuffer). r.0.ocr1b) servos ∙ g1,
  entry ∙ s0,
  exit ∙ s1,
  entry_ch ∙ c0,
  exit_ch ∙ c1,
  mode ∙ out,
)

shut-IsSafe : (y : System) → IsShut y → IsSafe y
shut-IsSafe y (g0, g1, s0, s1, c0, c1, out) = (
  (c0, c1),
  (
    λ out'. (g0 ∙ ap gate_pulse (sym s0), g1 ∙ ap gate_pulse (sym s1)),
    λ inside. absurd (inside out),
  ),
)

pub attempt-state :
    (r : ReturnType × System) (call : System → ReturnType × System)
    → (attempt r call).1 ≡ (call r.1).1
unfolding attempt
attempt-state (r, y) call = refl

pub glue-mcal : (y : System) → (init_mcal y).1.glue ≡ y.glue
unfolding init_mcal attempt
glue-mcal y = refl

pub glue-hal : (y : System) → (init_hal y).1.glue ≡ y.glue
unfolding init_hal attempt
glue-hal y = refl

app-IsShut : (y : System) → y.glue.in_maintenance ≡ 0 → IsShut (init_app y).1
unfolding init_app attempt init_lot init_light init_console init_lanes Lane.init bar_close
    close_barrier pulse init_entry_loop init_exit_loop
app-IsShut y out = (refl, refl, refl, refl, refl, refl, out)

frame-IsQuiet : (y : System) → IsQuiet y (first_frame y)
unfolding first_frame scan_lot
frame-IsQuiet y =
    let p1 = paint_line (y.panel, y.site.board) 0 (codes "SMART PARKING   ") in
    let (p, b) = paint_line p1 1 (codes "BOOTING...      ") in
    let y1 = record y { panel = p; site = record (y.site) { board = b } } in
    (
      (display-IsQuiet (record y1 { site = scan_lot y1.site })).0
          ∙ undisturbed-paint p1 1 (codes "BOOTING...      ")
          ∙ undisturbed-paint (y.panel, y.site.board) 0 (codes "SMART PARKING   "),
      refl,
      refl,
      refl,
      refl,
      refl,
    )

announce-IsQuiet : (cause : ℕ) (r : ReturnType × System) → IsQuiet r.1 (announce cause r)
unfolding announce send send_event send_string
announce-IsQuiet cause (r, y) =
    let sent = undisturbed-send_uint16 (send y.site (codes "!EVT,BOOT,CAUSE=")) cause in
    (
      choose (λ (w : Site). undisturbed w.board ≡ undisturbed y.site.board) (is_ok r) sent sent,
      refl,
      refl,
      refl,
      refl,
      refl,
    )

scheduler-IsQuiet : (y : System) → IsQuiet y (init_scheduler y).1
unfolding init_scheduler
scheduler-IsQuiet y = (refl, refl, refl, refl, refl, refl)

initialise-IsShut : (y : System) → y.glue.in_maintenance ≡ 0 → IsShut (initialise y).1
unfolding initialise
initialise-IsShut y out =
    let r1 = attempt (e_ok, y) init_mcal in
    let r2 = attempt r1 init_hal in
    let r3 = attempt r2 init_app in
    let flag : System → ℕ = λ y'. y'.glue.in_maintenance in
    let out1 : flag r1.1 ≡ 0 =
      ap flag (attempt-state (e_ok, y) init_mcal)
      ∙ ap (λ (g : Glue). g.in_maintenance) (glue-mcal y)
      ∙ out in
    let out2 : flag r2.1 ≡ 0 =
      ap flag (attempt-state r1 init_hal)
      ∙ ap (λ (g : Glue). g.in_maintenance) (glue-hal r1.1)
      ∙ out1 in
    let shut = subst IsShut (sym (attempt-state r2 init_app)) (app-IsShut r2.1 out2) in
    subst IsShut (sym (attempt-state r3 init_scheduler))
      (quiet-IsShut r3.1 (init_scheduler r3.1).1 (scheduler-IsQuiet r3.1) shut)

start_timer-IsQuiet : (y : System) → IsQuiet y (on_board Timer0.start y).1
unfolding Timer0.start
start_timer-IsQuiet y = (refl, refl, refl, refl, refl, refl)

-- Whatever fails on the way, the start leaves both barriers closed and both lanes idle on their own
-- channels, so the barriers follow the lanes when the super-loop begins. It needs the flag of
-- maintenance to be clear, as its static initialiser leaves it.
pub boot-IsShut : (y : System) → y.glue.in_maintenance ≡ 0 → IsShut (boot y) × IsSafe (boot y)
unfolding boot
boot-IsShut y out =
    let up = initialise (before_init y) in
    let framed = first_frame up.1 in
    let started = (on_board Timer0.start framed).1 in
    let shut =
      quiet-IsShut started (boot y) (announce-IsQuiet y.site.board.exti.mcucsr (up.0, started)) (
        quiet-IsShut framed started (start_timer-IsQuiet framed) (
          quiet-IsShut up.1 framed (frame-IsQuiet up.1) (initialise-IsShut (before_init y) out))) in
    (shut, shut-IsSafe (boot y) shut)
