-- ===== src/Scheduler/Dispatch.antt =====
-- When a registered task is due (SCHED_Tick in APP/scheduler/scheduler.c).
use native.Mathlib.Nat.{mod-add-mod, mod-eq_of_lt, add-mod_right}
use smart_parking_system_nti.Prelude.{
  ℕ, ◌+◌, ◌%◌, ◌≤◌, ◌<◌, ◌≡◌, refl, sym, ap, ◌∙◌, true, false, Option, none, some, List, [], ◌∷◌,
  ◌++◌, length, length-append, u32, ◌==◌, ==_iff, leb, Bool-cases, inl, inr, arith,
}
use smart_parking_system_nti.Scheduler.{TaskEntry, Scheduler, register_task, is_due}

-- every row can be divided by its period
abbrev pub AllPeriodic : List TaskEntry → Type 0
AllPeriodic [] = Unit {0}
AllPeriodic (t ∷ tasks) = (1 ≤ t.period) × (t.used ≡ 1) × AllPeriodic tasks

AllPeriodic-append :
    (tasks : List TaskEntry) (t : TaskEntry)
    → AllPeriodic tasks
    → 1 ≤ t.period
    → t.used ≡ 1
    → AllPeriodic (tasks ++ (t ∷ []))
AllPeriodic-append [] t h p u = (p, u, tt)
AllPeriodic-append (x ∷ tasks) t h p u = (h.0, h.1, AllPeriodic-append tasks t h.2 p u)

-- Registering keeps at most twelve rows, each in use and with a period that is not 0, so a tick
-- never divides by 0.
pub register_task-AllPeriodic :
    (s : Scheduler) (func : Option ℕ) (period offset : ℕ)
    → AllPeriodic s.tasks
    → length s.tasks ≤ 12
    → let s' = (register_task s func period offset).1 in
      AllPeriodic s'.tasks × (length s'.tasks ≤ 12)
unfolding register_task
register_task-AllPeriodic s none period offset h n = (h, n)
register_task-AllPeriodic s (some func) period offset h n =
    let t : TaskEntry = record { func = func; period = period; offset = offset; used = 1 } in
    let more = AllPeriodic-append s.tasks t h in
    let long = length-append s.tasks (t ∷ []) in
    elim (Bool-cases (period == 0)) [
      | inl e ↦ rw e (h, n)
      | inr e ↦ rw e (elim (Bool-cases (leb 12 (length s.tasks))) [
        | inl f ↦ rw f (h, n)
        | inr f ↦ rw f (more (ground arith) refl, ground (arith, long))
      ])
    ]

-- A task that is due at tick `n` is due again exactly one period later and not in between, as long
-- as the tick count and its offset stay below 2^32.
pub is_due_lem :
    (n : ℕ) (t : TaskEntry)
    → 1 ≤ t.period
    → n + t.period + t.offset < 4294967296
    → is_due n t ≡ true
    → (is_due (n + t.period) t ≡ true) × ((j : ℕ) → 1 ≤ j → j < t.period → is_due (n + j) t ≡ false)
is_due_lem n t p lt due =
    let start = n + t.offset in
    let kept : u32 start ≡ start = omega (arith, lt) in
    let at : start % t.period ≡ 0 =
      ap (λ x. x % t.period) (sym kept) ∙ (==_iff (u32 start % t.period) 0).0 due in
    let next : u32 (n + t.period + t.offset) ≡ start + t.period = omega (arith, lt) in
    let again : u32 (n + t.period + t.offset) % t.period ≡ 0 =
      ap (λ x. x % t.period) next ∙ add-mod_right start t.period ∙ at in
    (
      (==_iff (u32 (n + t.period + t.offset) % t.period) 0).1 again,
      λ j low high.
          let then : u32 (n + j + t.offset) ≡ start + j = omega (arith, lt, high) in
          let left : u32 (n + j + t.offset) % t.period ≡ j =
            ap (λ x. x % t.period) then
            ∙ sym (mod-add-mod start t.period j)
            ∙ ap (λ x. (x + j) % t.period) at
            ∙ ap (λ x. x % t.period) (omega arith)
            ∙ mod-eq_of_lt high in
          ground (arith, left),
    )
