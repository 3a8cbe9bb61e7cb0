-- ===== src/Lane/Steps.antt =====
-- The calls of LANE_Run (APP/lane/lane_fsm.c) against the transition table of README section 17.3.
use smart_parking_system_nti.Prelude.{
  ℕ, ◌<◌, ◌≡◌, ◌≢◌, refl, sym, ap, ◌∙◌, inl, inr, arith, ◌⊎◌, ◌==◌, flag,
}
use smart_parking_system_nti.Config.{servo_open_us, servo_closed_us}
use smart_parking_system_nti.Lot.{can_authorise_entry}
use smart_parking_system_nti.Barrier.Position.{pulse}
use smart_parking_system_nti.Ticketing.{open_rows}
use smart_parking_system_nti.Site.{Site}
use smart_parking_system_nti.Lane.{
  LaneState, idle, vehicle_wait, authorising, gate_opening, gate_open, vehicle_passing,
  gate_closing, rejected, timeout, Lane, run, dispatch,
}
use smart_parking_system_nti.Lane.Timers.{IsTimed}
use smart_parking_system_nti.Lane.Gate.{gate_pulse, run_gate}

-- 1 if all six rows of the ticket table are taken
abbrev pub table_full : Site → ℕ
table_full w = flag (open_rows w.tickets.tickets == 6)

-- A transition of a lane whose timer shows `ticks`, with a vehicle on the loop if `loop` is not 0 and
-- no free ticket row if `full` is not 0. The rows L1 to L13 of the table in README section 17.3 come
-- first; then the two where the code differs from it, and the waits.
pub data Edge (entry grant full loop ticks : ℕ) : LaneState → LaneState → Type 0 where
  -- L1 and L2, the confirmation running in LN_VEHICLE_WAIT
  arrive : loop ≢ 0 → Edge entry grant full loop ticks idle vehicle_wait
  confirm : loop ≢ 0 → ticks ≡ 1 → Edge entry grant full loop ticks vehicle_wait authorising
  -- L3, L4 and L5
  refuse : entry ≢ 0 → grant ≡ 0 → Edge entry grant full loop ticks authorising rejected
  admit :
      entry ≢ 0 → grant ≢ 0 → full ≡ 0 → Edge entry grant full loop ticks authorising gate_opening
  release : entry ≡ 0 → Edge entry grant full loop ticks authorising gate_opening
  -- L6 and L7
  end_reject : ticks ≡ 1 → Edge entry grant full loop ticks rejected idle
  opened : ticks ≡ 1 → Edge entry grant full loop ticks gate_opening gate_open
  -- L8 and L9
  pass : loop ≢ 0 → Edge entry grant full loop ticks gate_open vehicle_passing
  hold_over : loop ≡ 0 → ticks ≡ 1 → Edge entry grant full loop ticks gate_open gate_closing
  -- L10 and L11
  passed : loop ≡ 0 → Edge entry grant full loop ticks vehicle_passing gate_closing
  stuck : loop ≢ 0 → ticks ≡ 1 → Edge entry grant full loop ticks vehicle_passing timeout
  -- L12 and L13
  closed : ticks ≡ 1 → Edge entry grant full loop ticks gate_closing idle
  recover : loop ≡ 0 → Edge entry grant full loop ticks timeout idle
  -- not in the table: the vehicle leaves before it is confirmed
  leave : loop ≡ 0 → Edge entry grant full loop ticks vehicle_wait idle
  -- against L3: admitted with no free ticket row
  admit_full :
      entry ≢ 0 → grant ≢ 0 → full ≢ 0 → Edge entry grant full loop ticks authorising gate_opening
  -- the waits
  rest : loop ≡ 0 → Edge entry grant full loop ticks idle idle
  confirming : loop ≢ 0 → 1 < ticks → Edge entry grant full loop ticks vehicle_wait vehicle_wait
  rejecting : 1 < ticks → Edge entry grant full loop ticks rejected rejected
  opening : 1 < ticks → Edge entry grant full loop ticks gate_opening gate_opening
  holding : loop ≡ 0 → 1 < ticks → Edge entry grant full loop ticks gate_open gate_open
  passing : loop ≢ 0 → 1 < ticks → Edge entry grant full loop ticks vehicle_passing vehicle_passing
  closing : 1 < ticks → Edge entry grant full loop ticks gate_closing gate_closing
  blocked : loop ≢ 0 → Edge entry grant full loop ticks timeout timeout

abbrev pub Follows : LaneState → Site → Lane → Type 0
Follows st w ln =
    Edge ln.is_entry (can_authorise_entry w.lot) (table_full w) ln.loop_active ln.timer_ticks st
      (dispatch st w ln).1.state

follows :
    (st : LaneState) (w : Site) (ln : Lane)
    → ln.state ≡ st
    → IsTimed st ln.timer_ticks
    → Follows st w ln
unfolding dispatch
follows idle w ln e h = grind (arith, arrive, rest)
follows vehicle_wait w ln e h = grind (arith, leave, confirm, confirming)
follows authorising w ln e h = grind (arith, refuse, admit, admit_full, release)
follows rejected w ln e h = grind (arith, end_reject, rejecting)
follows gate_opening w ln e h = grind (arith, opened, opening)
follows gate_open w ln e h = grind (arith, pass, hold_over, holding)
follows vehicle_passing w ln e h = grind (arith, passed, stuck, passing)
follows gate_closing w ln e h = grind (arith, closed, closing)
follows timeout w ln e h = grind (arith, recover, blocked)

pub run_follows :
    (w : Site) (ln : Lane)
    → IsTimed ln.state ln.timer_ticks
    → Edge ln.is_entry
        (can_authorise_entry w.lot)
        (table_full w)
        ln.loop_active
        ln.timer_ticks
        ln.state
        (run w ln).1.state
unfolding run
run_follows w ln h = follows ln.state w ln refl h

-- an edge into a state that holds the gate open, from one that does not
opening-Edge :
    {entry grant full loop ticks : ℕ} {s t : LaneState}
    → Edge entry grant full loop ticks s t
    → gate_pulse s ≡ servo_closed_us
    → gate_pulse t ≡ servo_open_us
    → (s ≡ authorising) × ((entry ≡ 0) ⊎ (grant ≢ 0))
opening-Edge (admit e g f) c o = (refl, inr g)
opening-Edge (admit_full e g f) c o = (refl, inr g)
opening-Edge (release e) c o = (refl, inl e)
opening-Edge _ c o = absurd (omega arith)

-- A call of LANE_Run on a lane with its own channel and a timer in range opens the lane's closed
-- barrier, where that followed the lane's state, only if the lane is authorising, and on an entry lane
-- only with the authority of the lot. This is about LANE_Run alone: entering maintenance, the
-- fail-safe and the command OPEN open barriers of idle lanes.
pub opens_only_authorised :
    (w : Site) (ln : Lane)
    → ln.servo_ch < 2
    → IsTimed ln.state ln.timer_ticks
    → pulse w.board ln.servo_ch ≡ gate_pulse ln.state
    → pulse w.board ln.servo_ch ≡ servo_closed_us
    → pulse (run w ln).0.board ln.servo_ch ≡ servo_open_us
    → (ln.state ≡ authorising) × ((ln.is_entry ≡ 0) ⊎ (can_authorise_entry w.lot ≢ 0))
opens_only_authorised w ln own timed at shut now =
    let (gate, channel, others) = run_gate w ln own at in
    opening-Edge (run_follows w ln timed) (sym at ∙ shut)
      (sym gate ∙ ap (pulse (run w ln).0.board) channel ∙ now)
