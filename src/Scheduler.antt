-- ===== src/Scheduler.antt =====
-- APP/scheduler/scheduler.c: the table of periodic tasks. A task function is the number by which
-- the caller knows it, an option where it may be NULL; the rows beyond the task count are empty.
pub mod Dispatch
use smart_parking_system_nti.Prelude.{
  ℕ, suc, ◌+◌, ◌%◌, Bool, Option, none, some, List, [], ◌∷◌, ◌++◌, if◌then◌else◌, leb, ◌==◌, u32,
  length, ReturnType, e_ok, e_nok,
}
use smart_parking_system_nti.Config.{sched_max_tasks}

-- `SCHED_TaskEntry_t`; `used` is 1 in every registered row
pub record TaskEntry : Type 0 where
  pub func : ℕ
  pub period : ℕ
  pub offset : ℕ
  pub used : ℕ

-- the module's static variables: the registered rows of `g_tasks`, whose number is `g_taskCount`
pub record Scheduler : Type 0 where
  pub tasks : List TaskEntry
  pub tick_count : ℕ

unfoldable pub init : ReturnType × Scheduler
init = (e_ok, record { tasks = []; tick_count = 0 })

unfoldable pub register_task : Scheduler → Option ℕ → ℕ → ℕ → ReturnType × Scheduler
register_task s none period offset = (e_nok, s)
register_task s (some func) period offset =
    if period == 0
    then (e_nok, s)
    else if leb sched_max_tasks (length s.tasks)
    then (e_nok, s)
    else (
      e_ok,
      record s {
        tasks =
            s.tasks ++ (record { func = func; period = period; offset = offset; used = 1 } ∷ []);
      },
    )

-- `((g_tickCount + offset) % period) == 0` on `uint32`
abbrev pub is_due : ℕ → TaskEntry → Bool
is_due ticks t = u32 (ticks + t.offset) % t.period == 0

-- the functions that the loop calls, in order
unfoldable pub called : ℕ → List TaskEntry → List ℕ
called ticks [] = []
called ticks (t ∷ tasks) =
    let rest = called ticks tasks in
    if t.used == 0 then rest else if is_due ticks t then t.func ∷ rest else rest

-- one tick: the new state, and the functions called
unfoldable pub tick : Scheduler → Scheduler × List ℕ
unfolding called
tick s = let now = u32 (s.tick_count + 1) in (record s { tick_count = now }, called now s.tasks)
