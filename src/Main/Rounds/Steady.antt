-- ===== src/Main/Rounds/Steady.antt =====
-- The barriers over the steps of the running program while nothing is received (main.c).
use smart_parking_system_nti.Prelude.{
  ℕ, zero, suc, ◌≡◌, refl, sym, ap, subst, ◌∙◌, inl, inr, List, [], ◌∷◌, false, choose, ◌!=◌,
}
use smart_parking_system_nti.Lot.{Lot, is_fault}
use smart_parking_system_nti.Main.{System}
use smart_parking_system_nti.Main.Lanes.{task_lanes}
use smart_parking_system_nti.Main.Tasks.{
  task_buttons, task_lot, scan_lot, update_full_sign, task_loops, task_display, task_1hz,
  task_report,
}
use smart_parking_system_nti.Board.{Timer1, undisturbed}
use smart_parking_system_nti.RingBuffer.{RingBuffer}
use smart_parking_system_nti.Main.Drain.{queue, drain_of_empty}
use smart_parking_system_nti.Main.Loop.{
  run_task, run_tasks, task_table, on_tick, dispatch_tick, take_tick, pass, sense, Event, ticked,
  passed, received, sensed, step, run,
}
use smart_parking_system_nti.Scheduler
use smart_parking_system_nti.Main.Line.{task_console}
use smart_parking_system_nti.Main.Gates.{task_lanes_lem}
use smart_parking_system_nti.Main.Quiet.{IsQuiet, run_task-IsQuiet}
use smart_parking_system_nti.Main.Rounds.{IsSafe, quiet-IsSafe}
use smart_parking_system_nti.Main.Boot.{boot}
use smart_parking_system_nti.Barrier.Position.{pulse}
use smart_parking_system_nti.Main.Start.{boot-IsShut}
use smart_parking_system_nti.Main.Rounds.Lot.{
  Works, IsStill, task_lanes-Same, second-lot, buttons-Works, scan-Works, sign-IsStill,
  follow-IsStill,
}

-- both barriers follow their lanes, the lot works, and nothing is typed
abbrev pub IsSteady : System → Type 0
IsSteady y = IsSafe y × Works y.site.lot × ((queue y).count ≡ 0)

kept-Works : (l l' : Lot) → l' ≡ l → Works l → Works l'
kept-Works l l' kept works = subst Works (sym kept) works

-- as many bytes wait as before
waiting :
    (y y' : System)
    → undisturbed y'.site.board ≡ undisturbed y.site.board
    → (queue y').count ≡ (queue y).count
waiting y y' e = ap (λ (r : Timer1 × RingBuffer). r.1.count) e

quiet-IsSteady :
    (y y' : System)
    → IsQuiet y y'
    → (Works y.site.lot → Works y'.site.lot)
    → IsSteady y
    → IsSteady y'
quiet-IsSteady y y' quiet keeps (safe, works, empty) =
    (quiet-IsSafe y y' quiet safe, keeps works, waiting y y' quiet.0 ∙ empty)

still-IsSteady : (y y' : System) → IsStill y y' → IsSteady y → IsSteady y'
still-IsSteady y y' (quiet, kept) steady =
    quiet-IsSteady y y' quiet (kept-Works y.site.lot y'.site.lot kept) steady

lot-IsSteady : (y : System) → IsSteady y → IsSteady (task_lot y)
unfolding task_lot scan_lot
lot-IsSteady y (safe, works, empty) =
    let y1 = record y { site = scan_lot y.site } in
    let scanned : IsSteady y1 =
      (safe, scan-Works y.site.lot y.site.slots y.site.board.dio works, empty) in
    let signed = still-IsSteady y1 (update_full_sign y1) (sign-IsStill y1) scanned in
    still-IsSteady (update_full_sign y1) (task_lot y)
      (follow-IsStill (update_full_sign y1) signed.1) signed

lanes-IsSteady : (y : System) → IsSteady y → IsSteady (task_lanes y)
lanes-IsSteady y ((channels, aligned), works, empty) =
    let obeys = task_lanes_lem y channels aligned in
    let same = task_lanes-Same y in
    (
      (obeys.1, obeys.0),
      kept-Works y.site.lot (task_lanes y).site.lot (ap (λ (r : Lot × RingBuffer). r.0) same) works,
      ap (λ (r : Lot × RingBuffer). r.1.count) same ∙ empty,
    )

-- with nothing typed, Task_Console does nothing
console-IsSteady : (y : System) → IsSteady y → IsSteady (task_console y)
unfolding task_console
console-IsSteady y steady =
    subst IsSteady (sym (drain_of_empty y.site.board.rx.count y steady.2)) steady

run_task-IsSteady : (t : ℕ) (y : System) → IsSteady y → IsSteady (run_task t y)
unfolding run_task task_table task_loops task_display task_report
run_task-IsSteady zero y s = lanes-IsSteady y s
run_task-IsSteady (suc zero) y s =
    quiet-IsSteady y (task_buttons y) (run_task-IsQuiet 1 y (inl refl)) (buttons-Works y) s
run_task-IsSteady (suc (suc zero)) y s = lot-IsSteady y s
run_task-IsSteady (suc (suc (suc zero))) y s =
    quiet-IsSteady y (task_loops y) (run_task-IsQuiet 3 y (inr (inl refl))) (λ w. w) s
run_task-IsSteady (suc (suc (suc (suc zero)))) y s = console-IsSteady y s
run_task-IsSteady (suc (suc (suc (suc (suc zero))))) y s =
    quiet-IsSteady y (task_display y) (run_task-IsQuiet 5 y (inr (inr (inl refl)))) (λ w. w) s
run_task-IsSteady (suc (suc (suc (suc (suc (suc zero)))))) y s =
    quiet-IsSteady y (task_1hz y) (run_task-IsQuiet 6 y (inr (inr (inr (inl refl)))))
      (kept-Works y.site.lot (task_1hz y).site.lot (second-lot y)) s
run_task-IsSteady (suc (suc (suc (suc (suc (suc (suc zero))))))) y s =
    quiet-IsSteady y (task_report y) (run_task-IsQuiet 7 y (inr (inr (inr (inr refl))))) (λ w. w) s
run_task-IsSteady (suc (suc (suc (suc (suc (suc (suc (suc t)))))))) y s = s

run_tasks-IsSteady : (tasks : List ℕ) (y : System) → IsSteady y → IsSteady (run_tasks tasks y)
unfolding run_tasks
run_tasks-IsSteady [] y steady = steady
run_tasks-IsSteady (t ∷ tasks) y steady =
    run_tasks-IsSteady tasks (run_task t y) (run_task-IsSteady t y steady)

-- nothing is received
abbrev pub IsUntyped : Event → Type 0
IsUntyped ticked = Unit {0}
IsUntyped passed = Unit {0}
IsUntyped (received byte) = ⊥
IsUntyped (sensed pins_c pins_d analog) = Unit {0}

abbrev pub AllUntyped : List Event → Type 0
AllUntyped [] = Unit {0}
AllUntyped (e ∷ events) = IsUntyped e × AllUntyped events

step-IsSteady : (e : Event) (y : System) → IsUntyped e → IsSteady y → IsSteady (step e y)
unfolding step on_tick pass take_tick dispatch_tick sense pulse
step-IsSteady ticked y u s = s
step-IsSteady passed y u s =
    let y1 = (take_tick y).1 in
    let (sched, tasks) = Scheduler.tick y1.sched in
    choose IsSteady (y.glue.tick_flag != 0)
      (run_tasks-IsSteady tasks (record y1 { sched = sched }) s) s
step-IsSteady (received byte) y u s = absurd u
step-IsSteady (sensed pins_c pins_d analog) y u s = s

run-IsSteady :
    (events : List Event) (y : System) → AllUntyped events → IsSteady y → IsSteady (run events y)
unfolding run
run-IsSteady [] y u s = s
run-IsSteady (e ∷ events) y (first, all) s =
    run-IsSteady events (step e y) all (step-IsSteady e y first s)

-- After a start that does not end in the fault mode, and through any sequence of tick interrupts,
-- changes of the circuit and passes of the super-loop with nothing received, both barriers stand
-- where the states of their lanes want them outside maintenance, the lanes stay parked in it, and
-- the lot stays out of its fault mode. It needs the flag of maintenance to be clear before, as its
-- static initialiser leaves it, and no byte to wait when the super-loop begins.
pub untyped-IsSteady :
    (events : List Event) (y : System)
    → AllUntyped events
    → y.glue.in_maintenance ≡ 0
    → is_fault (boot y).site.lot.state ≡ false
    → (queue (boot y)).count ≡ 0
    → IsSteady (run events (boot y))
untyped-IsSteady events y u out works empty =
    run-IsSteady events (boot y) u ((boot-IsShut y out).1, works, empty)
