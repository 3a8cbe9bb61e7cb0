-- ===== src/Lane/Timers.antt =====
-- The range of a lane's timer (APP/lane/lane_fsm.c).
use smart_parking_system_nti.Prelude.{ℕ, ◌≤◌, ◌≡◌, refl, arith}
use smart_parking_system_nti.Site.{Site}
use smart_parking_system_nti.Lane.{
  LaneState, idle, vehicle_wait, gate_opening, gate_open, vehicle_passing, gate_closing, rejected,
  Lane, run, dispatch,
}

-- the longest wait of each state, in ticks; 0 where the state does not count
abbrev pub longest : LaneState → ℕ
longest vehicle_wait = 20
longest gate_opening = 100
longest gate_open = 500
longest vehicle_passing = 2000
longest gate_closing = 100
longest rejected = 200
longest _ = 0

-- a state that counts has between one tick and its longest wait to go
abbrev pub IsTimed : LaneState → ℕ → Type 0
IsTimed vehicle_wait ticks = (1 ≤ ticks) × (ticks ≤ 20)
IsTimed gate_opening ticks = (1 ≤ ticks) × (ticks ≤ 100)
IsTimed gate_open ticks = (1 ≤ ticks) × (ticks ≤ 500)
IsTimed vehicle_passing ticks = (1 ≤ ticks) × (ticks ≤ 2000)
IsTimed gate_closing ticks = (1 ≤ ticks) × (ticks ≤ 100)
IsTimed rejected ticks = (1 ≤ ticks) × (ticks ≤ 200)
IsTimed _ ticks = Unit {0}

run-IsTimed_at :
    (st : LaneState) (w : Site) (ln : Lane)
    → ln.state ≡ st
    → IsTimed st ln.timer_ticks
    → IsTimed (dispatch st w ln).1.state (dispatch st w ln).1.timer_ticks
unfolding dispatch
run-IsTimed_at idle w ln e h = ground arith
run-IsTimed_at _ w ln e h = ground arith

-- Every call of LANE_Run keeps the timer in the range of the state it leaves: between one tick and
-- the longest wait of that state wherever the state counts, if it was so before the call.
pub run-IsTimed :
    (w : Site) (ln : Lane)
    → IsTimed ln.state ln.timer_ticks
    → IsTimed (run w ln).1.state (run w ln).1.timer_ticks
unfolding run
run-IsTimed w ln h = run-IsTimed_at ln.state w ln refl h
