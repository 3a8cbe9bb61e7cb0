-- ===== src/Main/Ticks/Kept.antt =====
-- The scheduler of the running program (main.c): no task touches it, and a pass only counts.
use smart_parking_system_nti.Prelude.{
  ℕ, zero, suc, ◌≡◌, refl, ap, ◌∙◌, ◌==◌, ◌!=◌, ◌&&◌, ◌||◌, if◌then◌else◌, flag, not, ltb, choose,
  none, some, List, [], ◌∷◌, length, ◌+◌, ReturnType, e_ok, e_nok, Option,
}
use smart_parking_system_nti.Board.{Board}
use smart_parking_system_nti.Board.Usart.{receive_byte}
use smart_parking_system_nti.Scheduler
use smart_parking_system_nti.Light
use smart_parking_system_nti.Ticketing.{get_open_count}
use smart_parking_system_nti.Scheduler.{Scheduler, TaskEntry, tick}
use smart_parking_system_nti.Main.{System, lot_code}
use smart_parking_system_nti.Lot.{is_maintenance}
use smart_parking_system_nti.Main.Lanes.{
  task_lanes, enter_maintenance, leave_maintenance, run_lanes, report_lanes,
}
use smart_parking_system_nti.Main.Tasks.{
  task_buttons, read_buttons, task_lot, update_full_sign, follow_lot, task_loops, task_display,
  task_1hz, check_mismatch, report_overruns, task_report, scan_lot,
}
use smart_parking_system_nti.Main.Line.{
  submit, end_line, accept, consumed, unless_done, drain, task_console,
}
use smart_parking_system_nti.Main.Loop.{
  on_tick, task_table, run_task, run_tasks, dispatch_tick, take_tick, pass, sense, Event, ticked,
  passed, received, sensed, step, run,
}
use smart_parking_system_nti.Board.Timer0
use smart_parking_system_nti.Main.Boot.{
  attempt, on_board, init_mcal, init_hal, init_app, task_rows, register_all, init_scheduler,
  initialise, before_init, first_frame, announce, boot,
}
use smart_parking_system_nti.Main.Start.{attempt-state}

-- a step leaves the scheduler alone
abbrev Same : System → System → Type 0
Same y y' = y'.sched ≡ y.sched

lanes-Same : (y : System) → Same y (task_lanes y)
unfolding task_lanes enter_maintenance leave_maintenance run_lanes report_lanes
lanes-Same y =
    let ready = if y.glue.in_maintenance != 0 then leave_maintenance y else y in
    let before : Same y ready = choose (Same y) (y.glue.in_maintenance != 0) refl refl in
    choose (Same y) (is_maintenance y.site.lot.state)
      (choose (Same y) (y.glue.in_maintenance == 0) refl refl) before

sign-Same : (y : System) → Same y (update_full_sign y)
unfolding update_full_sign
sign-Same y =
    choose (Same y)
      (flag (y.site.lot.free_slots == 0 && not (is_maintenance y.site.lot.state))
        != y.glue.prev_full_sign)
      refl refl

follow-Same : (y : System) → Same y (follow_lot y)
unfolding follow_lot
follow-Same y =
    choose (Same y) (lot_code y.site.lot.state != lot_code y.glue.prev_lot_state) refl refl

lot-Same : (y : System) → Same y (task_lot y)
unfolding task_lot
lot-Same y =
    let y1 = record y { site = scan_lot y.site } in follow-Same (update_full_sign y1) ∙ sign-Same y1

check-Same : (y : System) → Same y (check_mismatch y)
unfolding check_mismatch
check-Same y =
    let sec =
      if ltb y.glue.mismatch_sec 255 then y.glue.mismatch_sec + 1 else y.glue.mismatch_sec in
    choose (Same y) (get_open_count y.site.tickets != y.site.lot.occupied_slots)
      (choose (Same y) (ltb 30 sec && y.glue.mismatch_logged == 0) refl refl) refl

second-Same : (y : System) → Same y (task_1hz y)
unfolding task_1hz report_overruns
second-Same y =
    let y1 = record y { light = (Light.run y.light y.settings.light_thresh y.site.board).1 } in
    choose (Same y) ((check_mismatch y1).glue.overrun_count != 0) (check-Same y1) (check-Same y1)

accept-Same : (y : System) (byte : ℕ) → Same y (accept y byte)
unfolding accept end_line submit
accept-Same y byte =
    choose (Same y) (byte == b'\r' || byte == b'\n')
      (choose (Same y) (y.glue.line_overflow != 0) refl
        (choose (Same y) (ltb 0 (length y.glue.line)) refl refl))
      (choose (Same y) (ltb (length y.glue.line) 24) refl refl)

round-Same :
    (y : System) (r : ReturnType × Option ℕ × Board) (rest : System → System)
    → ((y' : System) → Same y' (rest y'))
    → Same y (unless_done y (consumed y r) rest)
unfolding consumed unless_done
round-Same y (e_ok, some byte, b) rest same =
    let y1 = record y { site = record (y.site) { board = b } } in
    same (accept y1 byte) ∙ accept-Same y1 byte
round-Same y (e_ok, none, b) rest same = refl
round-Same y (e_nok, byte, b) rest same = refl

drain-Same : (fuel : ℕ) (y : System) → Same y (drain fuel y)
unfolding drain
drain-Same zero y = refl
drain-Same (suc fuel) y = round-Same y (receive_byte y.site.board) (drain fuel) (drain-Same fuel)

run_task-Same : (t : ℕ) (y : System) → Same y (run_task t y)
unfolding run_task task_table task_buttons read_buttons task_loops task_display task_report
    task_console
run_task-Same zero y = lanes-Same y
run_task-Same (suc zero) y = refl
run_task-Same (suc (suc zero)) y = lot-Same y
run_task-Same (suc (suc (suc zero))) y = refl
run_task-Same (suc (suc (suc (suc zero)))) y = drain-Same y.site.board.rx.count y
run_task-Same (suc (suc (suc (suc (suc zero))))) y = refl
run_task-Same (suc (suc (suc (suc (suc (suc zero)))))) y = second-Same y
run_task-Same (suc (suc (suc (suc (suc (suc (suc zero))))))) y = refl
run_task-Same (suc (suc (suc (suc (suc (suc (suc (suc t)))))))) y = refl

run_tasks-Same : (tasks : List ℕ) (y : System) → Same y (run_tasks tasks y)
unfolding run_tasks
run_tasks-Same [] y = refl
run_tasks-Same (t ∷ tasks) y = run_tasks-Same tasks (run_task t y) ∙ run_task-Same t y

step-tasks : (e : Event) (y : System) → (step e y).sched.tasks ≡ y.sched.tasks
unfolding step on_tick pass take_tick dispatch_tick sense tick
step-tasks ticked y = refl
step-tasks passed y =
    let y1 = (take_tick y).1 in
    let (s, tasks) = tick y1.sched in
    choose (λ (y' : System). y'.sched.tasks ≡ y.sched.tasks) (y.glue.tick_flag != 0)
      (ap (λ (s' : Scheduler). s'.tasks) (run_tasks-Same tasks (record y1 { sched = s }))) refl
step-tasks (received byte) y = refl
step-tasks (sensed pins_c pins_d analog) y = refl

-- The table of tasks never changes.
pub run-tasks : (events : List Event) (y : System) → (run events y).sched.tasks ≡ y.sched.tasks
unfolding run
run-tasks [] y = refl
run-tasks (e ∷ events) y = run-tasks events (step e y) ∙ step-tasks e y

-- the scheduler with the program's table
abbrev pub registered : Scheduler
registered = (register_all task_rows Scheduler.init).1

initialise-sched : (y : System) → (initialise y).1.sched ≡ registered
unfolding initialise init_scheduler
initialise-sched y =
    ap (λ (y' : System). y'.sched)
      (attempt-state (attempt (attempt (attempt (e_ok, y) init_mcal) init_hal) init_app)
        init_scheduler)

announce-Same : (cause : ℕ) (r : ReturnType × System) → Same r.1 (announce cause r)
unfolding announce
announce-Same cause (r, y) = refl

-- Whatever fails on the way, the start leaves the scheduler with the program's table.
pub boot-sched : (y : System) → (boot y).sched ≡ registered
unfolding boot first_frame task_display Timer0.start
boot-sched y =
    let up = initialise (before_init y) in
    let started = (on_board Timer0.start (first_frame up.1)).1 in
    announce-Same y.site.board.exti.mcucsr (up.0, started) ∙ initialise-sched (before_init y)
