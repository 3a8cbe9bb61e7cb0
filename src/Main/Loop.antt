-- ===== src/Main/Loop.antt =====
-- The interrupts of the program and one pass of the super-loop in main.c, as steps on the whole
-- state. The circuit sets what the pins and the analogue channels read.
use smart_parking_system_nti.Prelude.{ℕ, ◌+◌, List, [], ◌∷◌, if◌then◌else◌, ltb, ◌!=◌, get_or}
use smart_parking_system_nti.SoftRtc.{tick_10ms}
use smart_parking_system_nti.Board.Usart.{on_receive}
use smart_parking_system_nti.Scheduler
use smart_parking_system_nti.Main.{System}
use smart_parking_system_nti.Main.Lanes.{task_lanes}
use smart_parking_system_nti.Main.Tasks.{
  task_buttons, task_lot, task_loops, task_display, task_1hz, task_report,
}
use smart_parking_system_nti.Main.Line.{task_console}

-- MAIN_OnTick
unfoldable pub on_tick : System → System
unfolding tick_10ms
on_tick y = record y {
  glue = record (y.glue) {
    tick_overrun = if y.glue.tick_flag != 0 then 1 else y.glue.tick_overrun;
    tick_flag = 1;
  };
  site = record (y.site) { rtc = tick_10ms y.site.rtc };
}

-- the tasks in the order that MAIN_InitScheduler registers them
unfoldable pub task_table : List (System → System)
unfolding task_lanes task_buttons task_lot task_loops task_console task_display task_1hz task_report
task_table =
    task_lanes ∷ task_buttons ∷ task_lot ∷ task_loops ∷ task_console ∷ task_display ∷ task_1hz
    ∷ task_report ∷ []

unfoldable pub run_task : ℕ → System → System
unfolding task_table
run_task t y = get_or task_table t (λ y'. y') y

unfoldable pub run_tasks : List ℕ → System → System
unfolding run_task
run_tasks [] y = y
run_tasks (t ∷ tasks) y = run_tasks tasks (run_task t y)

-- SCHED_Tick, with the tasks that it calls
unfoldable pub dispatch_tick : System → System
unfolding Scheduler.tick run_tasks
dispatch_tick y =
    let (s, tasks) = Scheduler.tick y.sched in run_tasks tasks (record y { sched = s })

-- the atomic block, whose copy of the flag is the first result
unfoldable pub take_tick : System → ℕ × System
take_tick y =
    let g = y.glue in
    let counted = if ltb g.overrun_count 0xFFFF then g.overrun_count + 1 else g.overrun_count in
    (
      g.tick_flag,
      record y {
        glue = record g {
          tick_flag = 0;
          tick_overrun = 0;
          overrun_count = if g.tick_overrun != 0 then counted else g.overrun_count;
        };
      },
    )

-- one pass of the super-loop
unfoldable pub pass : System → System
unfolding take_tick dispatch_tick
pass y = let (tick, y') = take_tick y in if tick != 0 then dispatch_tick y' else y'

-- what the circuit sets: the pins of ports C and D, and the analogue channels
unfoldable pub sense : System → ℕ → ℕ → (ℕ → ℕ) → System
sense y pins_c pins_d analog =
    let b = y.site.board in
    let io = record (b.dio) {
      c = record (b.dio.c) { pin = pins_c };
      d = record (b.dio.d) { pin = pins_d };
    } in
    record y { site = record (y.site) { board = record b { dio = io; analog = analog } } }

pub data Event : Type 0 where
  ticked passed : Event
  received : ℕ → Event
  sensed : ℕ → ℕ → (ℕ → ℕ) → Event

unfoldable pub step : Event → System → System
unfolding on_tick pass sense on_receive
step ticked y = on_tick y
step passed y = pass y
step (received byte) y = record y {
  site = record (y.site) { board = on_receive y.site.board byte };
}
step (sensed pins_c pins_d analog) y = sense y pins_c pins_d analog

unfoldable pub run : List Event → System → System
unfolding step
run [] y = y
run (e ∷ events) y = run events (step e y)
