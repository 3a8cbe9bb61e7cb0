-- ===== src/Main/Ticks.antt =====
-- The load of a tick: the tasks that SCHED_Tick (APP/scheduler/scheduler.c) calls with the table of
-- MAIN_InitScheduler in main.c, and what README.md (section 19) allows each of them.
pub mod Kept
use smart_parking_system_nti.Prelude.{
  ℕ, zero, suc, ◌+◌, ◌%◌, ◌≤◌, ◌<◌, ◌≡◌, refl, ap, Bool, true, false, ◌∙◌, List, [], ◌∷◌, get_or,
  length, u32, ◌==◌, ==_iff, if◌then◌else◌, Bool-cases, inl, inr, choose, arith, all_below,
  all_below_sound, leb, ltb, ◌&&◌, ◌-◌, subst,
}
use smart_parking_system_nti.Scheduler
use smart_parking_system_nti.Scheduler.{Scheduler, tick, called}
use smart_parking_system_nti.Main.{System}
use smart_parking_system_nti.Main.Boot.{register_all, boot}
use smart_parking_system_nti.Main.Loop.{Event, run}
use smart_parking_system_nti.Main.Ticks.Kept.{registered, run-tasks, boot-sched}

-- the budgets in microseconds, in the order of the task numbers. Task_Lot does the work of T-3 and
-- T-4.
abbrev budgets : List ℕ
budgets = 300 ∷ 100 ∷ 350 ∷ 400 ∷ 500 ∷ 4000 ∷ 500 ∷ 2000 ∷ []

unfoldable pub spent : List ℕ → ℕ
spent [] = 0
spent (t ∷ tasks) = get_or budgets t 0 + spent tasks

-- a task of the table, called if `due`
abbrev add : Bool → ℕ → List ℕ → List ℕ
add due t tasks = if due then t ∷ tasks else tasks

-- the tasks that take turns, with the console and the two of every tick
abbrev mix : Bool → Bool → Bool → Bool → Bool → Bool → List ℕ
mix lot loops console display hz report =
    0 ∷ 1 ∷ add lot 2 (add loops 3 (add console 4 (add display 5 (add hz 6 (add report 7 [])))))

abbrev due : ℕ → ℕ → ℕ → Bool
due now period offset = u32 (now + offset) % period == 0

every_tick : (n : ℕ) → (n % 1 == 0) ≡ true
every_tick n = (==_iff (n % 1) 0).1 (omega arith)

called-mix :
    (now : ℕ)
    → called now registered.tasks
      ≡ mix
          (due now 5 1)
          (due now 5 3)
          (due now 2 4)
          (due now 25 5)
          (due now 100 7)
          (due now 500 11)
unfolding register_all Scheduler.init called
called-mix now = rw (every_tick (u32 (now + 0))) refl

-- what may be due together: at most one of the four that share the period of 5 ticks, and the
-- report only with the task for the lot, without the console
abbrev TakeTurns : Bool → Bool → Bool → Bool → Bool → Bool → Type 0
TakeTurns lot loops console display hz report =
    (lot ≡ true → (loops ≡ false) × (display ≡ false) × (hz ≡ false))
    × (loops ≡ true → (display ≡ false) × (hz ≡ false))
    × (display ≡ true → hz ≡ false)
    × (lot ≡ false → report ≡ false)
    × (console ≡ true → report ≡ false)

abbrev Fits : List ℕ → Type 0
Fits tasks = (spent tasks ≤ 4900) × (length tasks ≤ 4)

-- the turn of the lot, of one other task, or of none
lot-Fits :
    (console report : Bool)
    → (console ≡ true → report ≡ false)
    → Fits (mix true false console false false report)
unfolding spent
lot-Fits false false h = (omega arith, omega arith)
lot-Fits false true h = (omega arith, omega arith)
lot-Fits true report h = rw (h refl) (omega arith, omega arith)

mix-Fits :
    (lot loops console display hz report : Bool)
    → TakeTurns lot loops console display hz report
    → Fits (mix lot loops console display hz report)
unfolding spent
mix-Fits true loops console display hz report (with_lot, _, _, _, apart) =
    let (a, b, c) = with_lot refl in rw (a, b, c) (lot-Fits console report apart)
mix-Fits false true console display hz report (_, with_loops, _, r, _) =
    let (b, c) = with_loops refl in
    rw (b, c, r refl)
      (choose (λ l. Fits (0 ∷ 1 ∷ 3 ∷ l)) console (omega arith, omega arith)
        (omega arith, omega arith))
mix-Fits false false console true hz report (_, _, c, r, _) =
    rw (c refl, r refl)
      (choose (λ l. Fits (0 ∷ 1 ∷ l)) console (omega arith, omega arith) (omega arith, omega arith))
mix-Fits false false false false hz report (_, _, _, r, _) =
    rw (r refl)
      (choose (λ l. Fits (0 ∷ 1 ∷ l)) hz (omega arith, omega arith) (omega arith, omega arith))
mix-Fits false false true false hz report (_, _, _, r, _) =
    rw (r refl)
      (choose (λ l. Fits (0 ∷ 1 ∷ 4 ∷ l)) hz (omega arith, omega arith) (omega arith, omega arith))

-- an offset that does not pass the end of the counter
due-at :
    (now period offset : ℕ)
    → now + offset < 4294967296
    → due now period offset ≡ ((now + offset) % period == 0)
due-at now period offset lt = ap (λ x. x % period == 0) (omega (arith, lt))

turns :
    (now : ℕ)
    → now + 11 < 4294967296
    → TakeTurns
        (due now 5 1)
        (due now 5 3)
        (due now 2 4)
        (due now 25 5)
        (due now 100 7)
        (due now 500 11)
turns now lt =
    rw
      (
        due-at now 5 1 (omega (arith, lt)),
        due-at now 5 3 (omega (arith, lt)),
        due-at now 2 4 (omega (arith, lt)),
        due-at now 25 5 (omega (arith, lt)),
        due-at now 100 7 (omega (arith, lt)),
        due-at now 500 11 lt,
      )
      (
        λ h. (ground arith, ground arith, ground arith),
        λ h. (ground arith, ground arith),
        λ h. ground arith,
        λ h. ground arith,
        λ h. ground arith,
      )

-- the tasks of one tick
abbrev mixed : ℕ → List ℕ
mixed now =
    mix (due now 5 1) (due now 5 3) (due now 2 4) (due now 25 5) (due now 100 7) (due now 500 11)

passing-Fits :
    (tasks : List ℕ) → (leb (spent tasks) 4900 && leb (length tasks) 4) ≡ true → Fits tasks
passing-Fits tasks h = (ground (arith, h), ground (arith, h))

-- the last ticks before the counter wraps, where some offsets have wrapped already
abbrev passes : ℕ → Bool
passes k = let tasks = mixed (4294967285 + k) in leb (spent tasks) 4900 && leb (length tasks) 4

last_ticks : all_below 11 passes ≡ true
unfolding all_below spent
last_ticks = refl

mixed-Fits : (now : ℕ) → now < 4294967296 → Fits (mixed now)
mixed-Fits now lt = elim (Bool-cases (ltb (now + 11) 4294967296)) [
  | inl e ↦
      mix-Fits (due now 5 1) (due now 5 3) (due now 2 4) (due now 25 5) (due now 100 7)
        (due now 500 11) (turns now (ground (arith, e)))
  | inr e ↦
      let at : 4294967285 + (now - 4294967285) ≡ now = ground (arith, lt, e) in
      let passed : passes (now - 4294967285) ≡ true =
        all_below_sound 11 passes (now - 4294967285) last_ticks (ground (arith, lt, e)) in
      subst Fits (ap mixed at) (passing-Fits (mixed (4294967285 + (now - 4294967285))) passed)
]

-- From the start on, whatever fails in it, and through any sequence of tick interrupts, received
-- bytes, changes of the circuit and passes of the super-loop, the next tick calls at most four
-- tasks, whose budgets in README section 19 come to 4900 microseconds at most, of the 10 ms that it
-- has. This holds over the wrap of the tick count too.
pub tick_load :
    (events : List Event) (y : System)
    → let due = (tick (run events (boot y)).sched).1 in (spent due ≤ 4900) × (length due ≤ 4)
unfolding tick
tick_load events y =
    let s = (run events (boot y)).sched in
    let now = u32 (s.tick_count + 1) in
    let table : s.tasks ≡ registered.tasks =
      run-tasks events (boot y) ∙ ap (λ (s' : Scheduler). s'.tasks) (boot-sched y) in
    rw (table, called-mix now) (mixed-Fits now (omega arith))
