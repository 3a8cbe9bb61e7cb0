-- ===== src/Main/Gates.antt =====
-- The two barriers against the states of the two lanes (Task_Lanes in main.c).
use smart_parking_system_nti.Prelude.{
  ℕ, ◌↔◌, ◌≡◌, ◌≢◌, refl, sym, ◌∙◌, Bool, true, false, ◌==◌, ◌!=◌, Bool-cases, ==_iff, subst, inl,
  inr, arith,
}
use smart_parking_system_nti.Config.{servo_open_us, servo_closed_us}
use smart_parking_system_nti.Barrier.Position.{pulse}
use smart_parking_system_nti.Lot.{is_maintenance}
use smart_parking_system_nti.Main.{System, send, send_event}
use smart_parking_system_nti.Lane.{bar_close}
use smart_parking_system_nti.Barrier.{close_barrier}
use smart_parking_system_nti.Main.Lanes.{
  enter_maintenance, leave_maintenance, run_lanes, report_lanes, task_lanes,
}
use smart_parking_system_nti.Main.Barriers.{
  HasChannels, IsGuarded, IsAligned, enter_lem, leave-IsGuarded, outside,
}

clash : {b : Bool} → b ≡ true → b ≢ false
clash t f = ground arith

-- what the two tests of a flag say
ne_of : (n : ℕ) → (n == 0) ≡ false → n ≢ 0
ne_of n h = ground arith

set_of : (n : ℕ) → (n != 0) ≡ true → n ≢ 0
set_of n h = ground arith

zero_of : (n : ℕ) → (n != 0) ≡ false → n ≡ 0
zero_of n h = ground arith

-- the four ways that a call goes
module _ (y : System) where
  task_lanes-enters :
      is_maintenance y.site.lot.state ≡ true
      → (y.glue.in_maintenance == 0) ≡ true
      → task_lanes y ≡ enter_maintenance y
  unfolding task_lanes
  task_lanes-enters m out = rw (m, out) refl

  task_lanes-stays :
      is_maintenance y.site.lot.state ≡ true
      → (y.glue.in_maintenance == 0) ≡ false
      → task_lanes y ≡ y
  unfolding task_lanes
  task_lanes-stays m inside = rw (m, inside) refl

  task_lanes-runs :
      is_maintenance y.site.lot.state ≡ false
      → (y.glue.in_maintenance != 0) ≡ false
      → task_lanes y ≡ report_lanes (run_lanes y)
  unfolding task_lanes
  task_lanes-runs m out = rw (m, out) refl

  task_lanes-resumes :
      is_maintenance y.site.lot.state ≡ false
      → (y.glue.in_maintenance != 0) ≡ true
      → task_lanes y ≡ report_lanes (run_lanes (leave_maintenance y))
  unfolding task_lanes
  task_lanes-resumes m inside = rw (m, inside) refl

-- the program with both barriers closed and the flag of maintenance clear, the lanes as they were
abbrev pub Shut : System → System → Type 0
Shut y ready =
    (pulse ready.site.board 0 ≡ servo_closed_us)
    × (pulse ready.site.board 1 ≡ servo_closed_us)
    × (ready.entry ≡ y.entry)
    × (ready.exit ≡ y.exit)
    × (ready.glue.in_maintenance ≡ 0)

-- what a call of Task_Lanes does about the gates
abbrev pub Obeys : System → System → Type 0
Obeys y y' =
    IsAligned y'
    × HasChannels y'
    × ((y'.glue.in_maintenance ≢ 0) ↔ (is_maintenance y.site.lot.state ≡ true))
    × (is_maintenance y.site.lot.state ≡ true
        → y.glue.in_maintenance ≡ 0
        → (pulse y'.site.board 0 ≡ servo_open_us)
          × (pulse y'.site.board 1 ≡ servo_open_us)
          × (y'.site.board.timer2 ≡ y.site.board.timer2))
    × (is_maintenance y.site.lot.state ≡ true → y.glue.in_maintenance ≢ 0 → y' ≡ y)
    × (is_maintenance y.site.lot.state ≡ false
        → y.glue.in_maintenance ≢ 0
        → (ready : System) × Shut y ready × (y' ≡ report_lanes (run_lanes ready)))

module _ (y : System) (channels : HasChannels y) where
  enter-Obeys :
      is_maintenance y.site.lot.state ≡ true
      → y.glue.in_maintenance ≡ 0
      → Obeys y (enter_maintenance y)
  unfolding enter_maintenance
  enter-Obeys m out = (
    (λ (none : 1 ≡ 0). absurd (omega arith), λ inside. (refl, refl)),
    channels,
    (λ inside. m, λ m' (none : 1 ≡ 0). omega arith),
    λ m' out'. enter_lem y,
    λ m' inside. absurd (inside out),
    λ m' inside. absurd (inside out),
  )

  stay-Obeys :
      is_maintenance y.site.lot.state ≡ true → y.glue.in_maintenance ≢ 0 → IsAligned y → Obeys y y
  stay-Obeys m inside aligned = (
    aligned,
    channels,
    (λ inside'. m, λ m'. inside),
    λ m' out. absurd (inside out),
    λ m' inside'. refl,
    λ m' inside'. absurd (clash m m'),
  )

  -- the lanes ran, from a state outside maintenance
  run-Obeys :
      (ready : System)
      → is_maintenance y.site.lot.state ≡ false
      → ready.glue.in_maintenance ≡ 0
      → HasChannels ready
      → IsGuarded ready
      → (y.glue.in_maintenance ≢ 0 → Shut y ready)
      → Obeys y (report_lanes (run_lanes ready))
  run-Obeys ready m out channels' guarded shut =
      let (guarded', same, flag') = outside ready channels' guarded in
      let not_maintenance = λ (m' : is_maintenance y.site.lot.state ≡ true). clash m' m in
      (
        (λ none. guarded', λ inside. absurd (inside (flag' ∙ out))),
        same,
        (λ inside. absurd (inside (flag' ∙ out)), λ m'. absurd (not_maintenance m')),
        λ m' out'. absurd (not_maintenance m'),
        λ m' inside. absurd (not_maintenance m'),
        λ m' inside. (ready, shut inside, refl),
      )

-- With each lane on its own channel and the barriers following the lanes before it, a call of
-- Task_Lanes leaves both barriers where the states of their lanes want them if the lot is not in
-- maintenance, and both lanes parked if it is. The call that sees maintenance first opens both
-- barriers and leaves the tone as it was, and those after it change nothing at all. The first call
-- outside maintenance closes both barriers with the lanes as they were, and runs and reports the
-- lanes from there. Whichever it was, the program then knows whether it is in maintenance. LOT_FAULT
-- counts as outside maintenance here: the lanes go on, where section 15 of the README wants both
-- barriers held open and ticketing suspended.
pub task_lanes_lem : (y : System) → HasChannels y → IsAligned y → Obeys y (task_lanes y)
unfolding leave_maintenance send_event send bar_close close_barrier pulse
task_lanes_lem y channels aligned = elim (Bool-cases (is_maintenance y.site.lot.state)) [
  | inl m ↦ elim (Bool-cases (y.glue.in_maintenance == 0)) [
    | inl out ↦
        subst (Obeys y) (sym (task_lanes-enters y m out))
          (enter-Obeys y channels m ((==_iff y.glue.in_maintenance 0).0 out))
    | inr inside ↦
        subst (Obeys y) (sym (task_lanes-stays y m inside))
          (stay-Obeys y channels m (ne_of y.glue.in_maintenance inside) aligned)
  ]
  | inr m ↦ elim (Bool-cases (y.glue.in_maintenance != 0)) [
    | inl inside ↦
        let (entry, exit) = aligned.1 (set_of y.glue.in_maintenance inside) in
        subst (Obeys y) (sym (task_lanes-resumes y m inside)) (
          run-Obeys y channels (leave_maintenance y) m refl channels (leave-IsGuarded y entry exit)
            (λ inside'. (refl, refl, refl, refl, refl)))
    | inr out ↦
        let none = zero_of y.glue.in_maintenance out in
        subst (Obeys y) (sym (task_lanes-runs y m out))
          (run-Obeys y channels y m none channels (aligned.0 none) (λ inside. absurd (inside none)))
  ]
]
