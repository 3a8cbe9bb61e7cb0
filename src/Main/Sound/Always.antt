-- ===== src/Main/Sound/Always.antt =====
-- The program's data over all of its steps: interrupts, passes of the super-loop, and what the
-- circuit sets (main.c).
use smart_parking_system_nti.Prelude.{ℕ, zero, suc, ◌<◌, ◌!=◌, choose, List, [], ◌∷◌, arith}
use smart_parking_system_nti.SoftRtc.{SoftRtc, tick_10ms}
use smart_parking_system_nti.Scheduler
use smart_parking_system_nti.Main.{System}
use smart_parking_system_nti.Main.Loop.{
  on_tick, task_table, run_task, run_tasks, dispatch_tick, take_tick, pass, sense, Event, ticked,
  passed, received, sensed, step, run,
}
use smart_parking_system_nti.Main.Sound.Tasks.{
  IsSound, lanes-IsSound, buttons-IsSound, lot-IsSound, loops-IsSound, display-IsSound,
  second-IsSound, report-IsSound,
}
use smart_parking_system_nti.Main.Boot.{boot}
use smart_parking_system_nti.Main.Sound.Fresh.{IsFresh, boot-IsSound}
use smart_parking_system_nti.Main.Sound.Typed.{console-IsSound}

run_task-IsSound : (t : ℕ) (y : System) → IsSound y → IsSound (run_task t y)
unfolding run_task task_table
run_task-IsSound zero y s = lanes-IsSound y s
run_task-IsSound (suc zero) y s = buttons-IsSound y s
run_task-IsSound (suc (suc zero)) y s = lot-IsSound y s
run_task-IsSound (suc (suc (suc zero))) y s = loops-IsSound y s
run_task-IsSound (suc (suc (suc (suc zero)))) y s = console-IsSound y s
run_task-IsSound (suc (suc (suc (suc (suc zero))))) y s = display-IsSound y s
run_task-IsSound (suc (suc (suc (suc (suc (suc zero)))))) y s = second-IsSound y s
run_task-IsSound (suc (suc (suc (suc (suc (suc (suc zero))))))) y s = report-IsSound y s
run_task-IsSound (suc (suc (suc (suc (suc (suc (suc (suc t)))))))) y s = s

run_tasks-IsSound : (tasks : List ℕ) (y : System) → IsSound y → IsSound (run_tasks tasks y)
unfolding run_tasks
run_tasks-IsSound [] y s = s
run_tasks-IsSound (t ∷ tasks) y s = run_tasks-IsSound tasks (run_task t y) (run_task-IsSound t y s)

tick_10ms-lt : (c : SoftRtc) → c.uptime_sec < 4294967296 → (tick_10ms c).uptime_sec < 4294967296
unfolding tick_10ms
tick_10ms-lt c h = ground arith

pass-IsSound : (y : System) → IsSound y → IsSound (pass y)
unfolding pass take_tick dispatch_tick
pass-IsSound y s =
    let y1 = (take_tick y).1 in
    let (sched, tasks) = Scheduler.tick y1.sched in
    choose IsSound (y.glue.tick_flag != 0) (run_tasks-IsSound tasks (record y1 { sched = sched }) s)
      s

step-IsSound : (e : Event) (y : System) → IsSound y → IsSound (step e y)
unfolding step on_tick sense
step-IsSound ticked y (v, set, entry, exit, line) =
    ((v.0, tick_10ms-lt y.site.rtc v.1, v.2, v.3, v.4), set, entry, exit, line)
step-IsSound passed y s = pass-IsSound y s
step-IsSound (received byte) y s = s
step-IsSound (sensed pins_c pins_d analog) y s = s

pub run-IsSound : (events : List Event) (y : System) → IsSound y → IsSound (run events y)
unfolding run
run-IsSound [] y s = s
run-IsSound (e ∷ events) y s = run-IsSound events (step e y) (step-IsSound e y s)

-- From the start on, whatever fails in it, and through any sequence of tick interrupts, received
-- bytes, changes of the circuit and passes of the super-loop, the program's data stay in their
-- ranges: the ticket table is valid, the clock has 32 bits and the totals 16, the slot map has six
-- bits and the counts describe it and add up to six, every setting is in the range that README section
-- 18.2 gives for it, a lane that counts has between one tick and its longest wait to go, and the
-- line of the console holds at most 24 characters. It needs the static variables that no
-- initialisation sets to be in range before, as their initialisers leave them.
pub always-IsSound : (events : List Event) (y : System) → IsFresh y → IsSound (run events (boot y))
always-IsSound events y fresh = run-IsSound events (boot y) (boot-IsSound y fresh)
