-- ===== src/Lane/Progress.antt =====
-- How long a lane takes (LANE_Run in APP/lane/lane_fsm.c).
use smart_parking_system_nti.Prelude.{
  ℕ, zero, suc, ◌+◌, ◌-◌, ◌<◌, ◌≤◌, ◌≡◌, ◌≢◌, refl, ◌∙◌, arith, List, [], ◌∷◌, length,
}
use smart_parking_system_nti.Site.{Site}
use smart_parking_system_nti.Lane.{
  LaneState, idle, vehicle_wait, authorising, gate_opening, gate_open, vehicle_passing,
  gate_closing, rejected, timeout, Lane, run, dispatch,
}
use smart_parking_system_nti.Lane.Timers.{IsTimed, run-IsTimed}

-- The lane after a tick for each site listed: what the rest of the system does in between is any
-- site at all.
unfoldable pub ticks : List Site → Lane → Lane
ticks [] ln = ln
ticks (w ∷ ws) ln = ticks ws (run w ln).1

-- the most ticks that a lane with a clear loop still needs to become idle
abbrev rank : LaneState → ℕ → ℕ
rank idle t = 0
rank vehicle_wait t = 1
rank timeout t = 1
rank rejected t = t
rank gate_closing t = t
rank vehicle_passing t = 101
rank gate_open t = t + 100
rank gate_opening t = t + 600
rank authorising t = 701

abbrev Falls : LaneState → Site → Lane → Type 0
Falls st w ln =
    let ln' = (dispatch st w ln).1 in
    (rank ln'.state ln'.timer_ticks ≤ rank st ln.timer_ticks - 1)
    × (ln'.loop_active ≡ ln.loop_active)

falls :
    (st : LaneState) (w : Site) (ln : Lane)
    → ln.state ≡ st
    → IsTimed st ln.timer_ticks
    → ln.loop_active ≡ 0
    → Falls st w ln
unfolding dispatch
falls idle w ln e h clear = ground arith
falls _ w ln e h clear = ground arith

run_falls :
    (w : Site) (ln : Lane)
    → IsTimed ln.state ln.timer_ticks
    → ln.loop_active ≡ 0
    → let ln' = (run w ln).1 in
      (rank ln'.state ln'.timer_ticks ≤ rank ln.state ln.timer_ticks - 1)
      × (ln'.loop_active ≡ ln.loop_active)
unfolding run
run_falls w ln h clear = falls ln.state w ln refl h clear

idle_of_rank : (st : LaneState) (t : ℕ) → IsTimed st t → rank st t ≡ 0 → st ≡ idle
idle_of_rank idle t h e = refl
idle_of_rank vehicle_wait t h e = absurd (omega arith)
idle_of_rank _ t h e = absurd (omega arith)

rank-le : (st : LaneState) (t : ℕ) → IsTimed st t → rank st t ≤ 701
rank-le idle t h = omega arith
rank-le _ t h = omega arith

idle_after :
    (ws : List Site) (ln : Lane)
    → IsTimed ln.state ln.timer_ticks
    → ln.loop_active ≡ 0
    → rank ln.state ln.timer_ticks ≤ length ws
    → (ticks ws ln).state ≡ idle
unfolding ticks
idle_after [] ln h clear le = idle_of_rank ln.state ln.timer_ticks h (omega arith)
idle_after (w ∷ ws) ln h clear le =
    let (fall, same) = run_falls w ln h clear in
    idle_after ws (run w ln).1 (run-IsTimed w ln h) (same ∙ clear) (omega arith)

-- With its loop clear and its timer in range, a lane is idle after 701 ticks (7.01 s) or more,
-- whatever state it starts in and whatever the rest of the system does meanwhile, the command
-- SET HOLD included: the README (sections 10.3, 11.3 and 18.2) lets it set a hold of up to 15 s, but
-- the code always holds the gate open for the 5 s of config.h.
pub idle_within_701 :
    (ws : List Site) (ln : Lane)
    → IsTimed ln.state ln.timer_ticks
    → ln.loop_active ≡ 0
    → 701 ≤ length ws
    → (ticks ws ln).state ≡ idle
idle_within_701 ws ln h clear long =
    idle_after ws ln h clear (omega (arith, rank-le ln.state ln.timer_ticks h))

-- one tick of a vehicle that does not move on
passing_waits :
    (w : Site) (ln : Lane) (t : ℕ)
    → ln.state ≡ vehicle_passing
    → ln.loop_active ≢ 0
    → ln.timer_ticks ≡ suc (suc t)
    → t < 2000
    → let ln' = (run w ln).1 in
      (ln'.state ≡ vehicle_passing) × (ln'.loop_active ≢ 0) × (ln'.timer_ticks ≡ suc t)
unfolding run
passing_waits w ln t st on e lt = ground arith

passing_ends :
    (w : Site) (ln : Lane)
    → ln.state ≡ vehicle_passing
    → ln.loop_active ≢ 0
    → ln.timer_ticks ≡ 1
    → let ln' = (run w ln).1 in (ln'.state ≡ timeout) × (ln'.fault_flag ≡ 1)
unfolding run
passing_ends w ln st on e = ground arith

-- A vehicle that stays on the loop under an open gate is timed out after exactly as many ticks as
-- the timer shows, at most 2000 (20 s): the lane is still in LN_VEHICLE_PASSING before, and then in
-- LN_TIMEOUT with its fault flag set.
pub passing_times_out :
    (t : ℕ) (ws : List Site) (ln : Lane)
    → ln.state ≡ vehicle_passing
    → ln.loop_active ≢ 0
    → ln.timer_ticks ≡ suc t
    → t < 2000
    → (length ws ≤ t → (ticks ws ln).state ≡ vehicle_passing)
      × (length ws ≡ suc t → ((ticks ws ln).state ≡ timeout) × ((ticks ws ln).fault_flag ≡ 1))
unfolding ticks
passing_times_out t [] ln st on e lt = (λ h. st, λ h. absurd (omega arith))
passing_times_out zero (w ∷ []) ln st on e lt =
    (λ h. absurd (omega arith), λ h. passing_ends w ln st on e)
passing_times_out zero (w ∷ v ∷ ws) ln st on e lt =
    (λ h. absurd (omega arith), λ h. absurd (omega arith))
passing_times_out (suc t) (w ∷ ws) ln st on e lt =
    let (st', on', e') = passing_waits w ln t st on e (omega arith) in
    let (before, at_end) = passing_times_out t ws (run w ln).1 st' on' e' (omega arith) in
    (λ h. before (omega arith), λ h. at_end (omega arith))
