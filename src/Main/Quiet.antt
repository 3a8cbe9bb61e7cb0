-- ===== src/Main/Quiet.antt =====
-- The tasks of main.c that leave the barriers and the lanes' states alone.
use smart_parking_system_nti.Prelude.{
  ℕ, ◌≡◌, refl, ◌∙◌, ◌==◌, ◌!=◌, ◌&&◌, ltb, leb, choose, Bool-cases, inl, inr, u8, ◌+◌, ◌⊎◌,
  if◌then◌else◌, sym, subst, some, [], ◌∷◌,
}
use smart_parking_system_nti.Board.{Board, undisturbed}
use smart_parking_system_nti.Board.Usart.{send_string}
use smart_parking_system_nti.Buttons
use smart_parking_system_nti.Buzzer.Sequence.{update-undisturbed}
use smart_parking_system_nti.Site.{Site}
use smart_parking_system_nti.Lane.{Lane, request_open}
use smart_parking_system_nti.LoopSense
use smart_parking_system_nti.LoopSense.{LoopSense}
use smart_parking_system_nti.Board.Adc.{read_channel}
use smart_parking_system_nti.Text.{codes, decimal}
use smart_parking_system_nti.Ticketing.{get_open_count}
use smart_parking_system_nti.Main.Loop.{run_task, task_table}
use smart_parking_system_nti.Console.Keeps.{send-keeps}
use smart_parking_system_nti.Light
use smart_parking_system_nti.Display.Keeps.{undisturbed-refresh}
use smart_parking_system_nti.Main.{System, send, send_bytes, send_uint16}
use smart_parking_system_nti.Main.Barriers.{undisturbed-send_bytes}
use smart_parking_system_nti.Main.Tasks.{
  task_buttons, read_buttons, buz_update, task_loops, task_display, task_1hz, check_mismatch,
  mismatch_event, report_overruns, task_report,
}

-- nothing moved a servo, received a byte or changed the state of a lane
abbrev pub IsQuiet : System → System → Type 0
IsQuiet y y' =
    (undisturbed y'.site.board ≡ undisturbed y.site.board)
    × (y'.entry.state ≡ y.entry.state)
    × (y'.exit.state ≡ y.exit.state)
    × (y'.entry.servo_ch ≡ y.entry.servo_ch)
    × (y'.exit.servo_ch ≡ y.exit.servo_ch)
    × (y'.glue.in_maintenance ≡ y.glue.in_maintenance)

pub undisturbed-send_uint16 :
    (w : Site) (v : ℕ) → undisturbed (send_uint16 w v).board ≡ undisturbed w.board
unfolding send_uint16
undisturbed-send_uint16 w v = undisturbed-send_bytes w.board (decimal 6 v)

read_buttons-undisturbed :
    (y : System) → undisturbed (read_buttons y).site.board ≡ undisturbed y.site.board
unfolding read_buttons
read_buttons-undisturbed y =
    choose (λ (w : Site). undisturbed w.board ≡ undisturbed y.site.board)
      (Buttons.is_pressed y.buttons 3 != 0 && y.glue.prev_maint_btn == 0) refl refl

buttons-IsQuiet : (y : System) → IsQuiet y (task_buttons y)
unfolding task_buttons read_buttons buz_update
buttons-IsQuiet y =
    let y1 = read_buttons (record y { buttons = (Buttons.update y.buttons y.site.board.dio).1 }) in
    (
      update-undisturbed y1.site.buzzer y1.site.board
          ∙ read_buttons-undisturbed
              (record y { buttons = (Buttons.update y.buttons y.site.board.dio).1 }),
      refl,
      refl,
      refl,
      refl,
      refl,
    )

abbrev SameGate : Lane → Lane → Type 0
SameGate ln ln' = (ln'.state ≡ ln.state) × (ln'.servo_ch ≡ ln.servo_ch)

observe-SameGate :
    (s : LoopSense) (ln : Lane) (raw : ℕ) → SameGate ln (LoopSense.observe s ln raw).1
unfolding LoopSense.observe request_open
observe-SameGate s ln raw =
    let Same : LoopSense × Lane → Type 0 = λ r. SameGate ln r.1 in
    choose Same (LoopSense.vote s raw == s.confirmed_active) (refl, refl)
      (choose Same (leb 4 (u8 (s.candidate_count + 1))) (refl, refl) (refl, refl))

loop-SameGate :
    (s : LoopSense) (ln : Lane) (b : Board) → SameGate ln (LoopSense.run (some s) ln b).2
unfolding LoopSense.run read_channel
loop-SameGate s ln b = elim (Bool-cases (ltb 7 s.adc_channel)) [
  | inl high ↦ rw (high, LoopSense.run) (refl, refl)
  | inr low ↦ rw (low, LoopSense.run) (observe-SameGate s ln (b.analog s.adc_channel))
]

loops-IsQuiet : (y : System) → IsQuiet y (task_loops y)
unfolding task_loops
loops-IsQuiet y =
    let (entry, entry_ch) = loop-SameGate y.entry_loop y.entry y.site.board in
    let (exit, exit_ch) = loop-SameGate y.exit_loop y.exit y.site.board in
    (refl, entry, exit, entry_ch, exit_ch, refl)

pub display-IsQuiet : (y : System) → IsQuiet y (task_display y)
unfolding task_display
display-IsQuiet y = (
  undisturbed-refresh y.panel y.site.board y.site.lot y.light y.entry y.exit,
  refl,
  refl,
  refl,
  refl,
  refl,
)

report-IsQuiet : (y : System) → IsQuiet y (task_report y)
unfolding task_report send_string
report-IsQuiet y = (
  send-keeps (λ b. undisturbed b ≡ undisturbed y.site.board) (λ b text p. p) y.site y.entry y.exit
      refl,
  refl,
  refl,
  refl,
  refl,
  refl,
)

mismatch-undisturbed :
    (w : Site) (t o : ℕ) → undisturbed (mismatch_event w t o).board ≡ undisturbed w.board
unfolding mismatch_event send send_string
mismatch-undisturbed w t o =
    let w1 = send_uint16 (send w (codes "!EVT,LOT,MISMATCH,")) t in
    undisturbed-send_uint16 (record w1 { board = send_bytes w1.board (b',' ∷ []) }) o
    ∙ undisturbed-send_bytes w1.board (b',' ∷ [])
    ∙ undisturbed-send_uint16 (send w (codes "!EVT,LOT,MISMATCH,")) t

check-IsQuiet : (y : System) → IsQuiet y (check_mismatch y)
unfolding check_mismatch
check-IsQuiet y =
    let t = get_open_count y.site.tickets in
    let o = y.site.lot.occupied_slots in
    let sec =
      if ltb y.glue.mismatch_sec 255 then y.glue.mismatch_sec + 1 else y.glue.mismatch_sec in
    choose (IsQuiet y) (t != o)
      (choose (IsQuiet y) (ltb 30 sec && y.glue.mismatch_logged == 0)
        (mismatch-undisturbed y.site t o, refl, refl, refl, refl, refl)
        (refl, refl, refl, refl, refl, refl))
      (refl, refl, refl, refl, refl, refl)

overruns-IsQuiet : (y : System) → IsQuiet y (report_overruns y)
unfolding report_overruns send send_string
overruns-IsQuiet y =
    choose (IsQuiet y) (y.glue.overrun_count != 0)
      (
        undisturbed-send_uint16 (send y.site (codes "!EVT,SCHED,OVR,")) y.glue.overrun_count,
        refl,
        refl,
        refl,
        refl,
        refl,
      )
      (refl, refl, refl, refl, refl, refl)

pub IsQuiet-trans : (y y1 y2 : System) → IsQuiet y y1 → IsQuiet y1 y2 → IsQuiet y y2
IsQuiet-trans y y1 y2 (a, b, c, d, e, f) (a', b', c', d', e', f') =
    (a' ∙ a, b' ∙ b, c' ∙ c, d' ∙ d, e' ∙ e, f' ∙ f)

second-IsQuiet : (y : System) → IsQuiet y (task_1hz y)
unfolding task_1hz
second-IsQuiet y =
    let y1 = record y { light = (Light.run y.light y.settings.light_thresh y.site.board).1 } in
    IsQuiet-trans y (check_mismatch y1) (task_1hz y) (check-IsQuiet y1)
      (overruns-IsQuiet (check_mismatch y1))

-- the tasks that only read buttons, sense, show and report
abbrev pub IsWatching : ℕ → Type 0
IsWatching t = (t ≡ 1) ⊎ (t ≡ 3) ⊎ (t ≡ 5) ⊎ (t ≡ 6) ⊎ (t ≡ 7)

-- The tasks for the buttons, the loops, the display, the 1 Hz checks and the report drive no servo,
-- change no lane's state and neither enter nor leave maintenance.
pub run_task-IsQuiet : (t : ℕ) (y : System) → IsWatching t → IsQuiet y (run_task t y)
unfolding run_task task_table
run_task-IsQuiet t y (inl e) = subst (λ k. IsQuiet y (run_task k y)) (sym e) (buttons-IsQuiet y)
run_task-IsQuiet t y (inr (inl e)) = subst (λ k. IsQuiet y (run_task k y)) (sym e) (loops-IsQuiet y)
run_task-IsQuiet t y (inr (inr (inl e))) =
    subst (λ k. IsQuiet y (run_task k y)) (sym e) (display-IsQuiet y)
run_task-IsQuiet t y (inr (inr (inr (inl e)))) =
    subst (λ k. IsQuiet y (run_task k y)) (sym e) (second-IsQuiet y)
run_task-IsQuiet t y (inr (inr (inr (inr e)))) =
    subst (λ k. IsQuiet y (run_task k y)) (sym e) (report-IsQuiet y)
