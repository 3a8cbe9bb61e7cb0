-- ===== src/Main/Rounds.antt =====
-- The barriers over a round of tasks (SCHED_Tick as main.c uses it).
pub mod Lot
pub mod Steady
use smart_parking_system_nti.Prelude.{ℕ, ◌≡◌, sym, ap, subst, ◌∙◌, ◌⊎◌, inl, inr, List, [], ◌∷◌}
use smart_parking_system_nti.Board.{Timer1}
use smart_parking_system_nti.RingBuffer.{RingBuffer}
use smart_parking_system_nti.Barrier.Position.{pulse}
use smart_parking_system_nti.Lane.Gate.{gate_pulse}
use smart_parking_system_nti.Main.{System}
use smart_parking_system_nti.Main.Loop.{run_task, run_tasks, task_table}
use smart_parking_system_nti.Main.Barriers.{HasChannels, IsAligned}
use smart_parking_system_nti.Main.Gates.{task_lanes_lem}
use smart_parking_system_nti.Main.Quiet.{IsQuiet, IsWatching, run_task-IsQuiet}

-- both barriers follow their lanes, each on its own channel
abbrev pub IsSafe : System → Type 0
IsSafe y = HasChannels y × IsAligned y

pub quiet-IsSafe : (y y' : System) → IsQuiet y y' → IsSafe y → IsSafe y'
unfolding pulse
quiet-IsSafe y y' (servos, entry, exit, entry_ch, exit_ch, mode)
      ((at_entry, at_exit), (guard, park)) =
    (
      (entry_ch ∙ at_entry, exit_ch ∙ at_exit),
      (
        λ out.
            let (g0, g1) = guard (sym mode ∙ out) in
            (
              ap (λ (r : Timer1 × RingBuffer). r.0.ocr1a) servos ∙ g0 ∙ sym (ap gate_pulse entry),
              ap (λ (r : Timer1 × RingBuffer). r.0.ocr1b) servos ∙ g1 ∙ sym (ap gate_pulse exit),
            ),
        λ inside. let (p0, p1) = park (λ e. inside (mode ∙ e)) in (entry ∙ p0, exit ∙ p1),
      ),
    )

-- every task but those for the lot and the console
abbrev pub AllSafe : List ℕ → Type 0
AllSafe [] = Unit {0}
AllSafe (t ∷ tasks) = ((t ≡ 0) ⊎ IsWatching t) × AllSafe tasks

pub run_task-IsSafe :
    (t : ℕ) (y : System) → (t ≡ 0) ⊎ IsWatching t → IsSafe y → IsSafe (run_task t y)
unfolding run_task task_table
run_task-IsSafe t y (inl e) (channels, aligned) =
    let obeys = task_lanes_lem y channels aligned in
    subst (λ k. IsSafe (run_task k y)) (sym e) (obeys.1, obeys.0)
run_task-IsSafe t y (inr w) safe = quiet-IsSafe y (run_task t y) (run_task-IsQuiet t y w) safe

-- Through any number of tasks that are not those for the lot and the console, in any order, both
-- barriers stand where the states of their lanes want them outside maintenance, and the lanes stay
-- parked in it.
pub run_tasks-IsSafe :
    (tasks : List ℕ) (y : System) → AllSafe tasks → IsSafe y → IsSafe (run_tasks tasks y)
unfolding run_tasks
run_tasks-IsSafe [] y all safe = safe
run_tasks-IsSafe (t ∷ tasks) y (first, all) safe =
    run_tasks-IsSafe tasks (run_task t y) all (run_task-IsSafe t y first safe)
