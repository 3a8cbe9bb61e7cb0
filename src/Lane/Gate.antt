-- ===== src/Lane/Gate.antt =====
-- The barrier of a lane against its state (LANE_Run in APP/lane/lane_fsm.c).
use smart_parking_system_nti.Prelude.{ℕ, ◌<◌, ◌≡◌, ◌≢◌, refl, ap, ◌∙◌, arith}
use smart_parking_system_nti.Config.{servo_open_us, servo_closed_us}
use smart_parking_system_nti.Barrier.Position.{pulse}
use smart_parking_system_nti.Site.{Site}
use smart_parking_system_nti.Lane.{
  LaneState, idle, vehicle_wait, authorising, gate_opening, gate_open, vehicle_passing,
  gate_closing, rejected, timeout, Lane, run, dispatch, bar_close, tkt_on_entry, bil_on_exit,
}
use smart_parking_system_nti.Lane.Calls.{
  pulse-tkt, pulse-bil, pulse-buz_on, pulse-buz_off, pulse-buz_beep, pulse-bar_open,
  pulse-bar_close,
}

-- the pulse width that holds the barrier where a state wants it
abbrev pub gate_pulse : LaneState → ℕ
gate_pulse gate_opening = servo_open_us
gate_pulse gate_open = servo_open_us
gate_pulse vehicle_passing = servo_open_us
gate_pulse _ = servo_closed_us

-- the statement that a call moves a servo only as its state changes say: the lane's own channel ends where the new state wants
-- it, if it stood where the old state wanted it, and the other channel does not move.
abbrev Moves : LaneState → Site → Lane → Type 0
Moves st w ln =
    let c = ln.servo_ch in
    (pulse w.board c ≡ gate_pulse st
      → pulse (dispatch st w ln).0.board c ≡ gate_pulse (dispatch st w ln).1.state)
    × ((other : ℕ)
        → other < 2
        → other ≢ c
        → pulse (dispatch st w ln).0.board other ≡ pulse w.board other)
    × ((dispatch st w ln).1.servo_ch ≡ c)

module _ (w : Site) (ln : Lane) (own : ln.servo_ch < 2) where
  Moves-idle : ln.state ≡ idle → Moves idle w ln
  unfolding dispatch
  Moves-idle e = (ground arith, λ o h ne. ground arith, ground arith)

  Moves-wait : ln.state ≡ vehicle_wait → Moves vehicle_wait w ln
  unfolding dispatch
  Moves-wait e = (ground arith, λ o h ne. ground arith, ground arith)

  Moves-rejected : ln.state ≡ rejected → Moves rejected w ln
  unfolding dispatch
  Moves-rejected e = (
    ground (arith, pulse-buz_off w ln.servo_ch),
    λ o h ne. ground (arith, pulse-buz_off w o),
    ground arith,
  )

  Moves-authorising : ln.state ≡ authorising → Moves authorising w ln
  unfolding dispatch
  Moves-authorising e = (
    ground (
      arith,
      pulse-bar_open (tkt_on_entry w) ln.servo_ch ln.servo_ch,
      pulse-bar_open (bil_on_exit w) ln.servo_ch ln.servo_ch,
      pulse-buz_on w ln.servo_ch,
    ),
    λ o h ne. ground (
      arith,
      pulse-bar_open (tkt_on_entry w) ln.servo_ch o,
      pulse-bar_open (bil_on_exit w) ln.servo_ch o,
      pulse-tkt w o,
      pulse-bil w o,
      pulse-buz_on w o,
    ),
    ground arith,
  )

  Moves-opening : ln.state ≡ gate_opening → Moves gate_opening w ln
  unfolding dispatch
  Moves-opening e = (ground arith, λ o h ne. ground arith, ground arith)

  Moves-open : ln.state ≡ gate_open → Moves gate_open w ln
  unfolding dispatch
  Moves-open e = (
    ground (arith, pulse-bar_close w ln.servo_ch ln.servo_ch),
    λ o h ne. ground (arith, pulse-bar_close w ln.servo_ch o),
    ground arith,
  )

  Moves-passing : ln.state ≡ vehicle_passing → Moves vehicle_passing w ln
  unfolding dispatch
  Moves-passing e = (
    ground (
      arith,
      pulse-bar_close w ln.servo_ch ln.servo_ch,
      pulse-buz_beep (bar_close w ln.servo_ch) 3 100 ln.servo_ch,
    ),
    λ o h ne.
        ground (
          arith,
          pulse-bar_close w ln.servo_ch o,
          pulse-buz_beep (bar_close w ln.servo_ch) 3 100 o,
        ),
    ground arith,
  )

  Moves-closing : ln.state ≡ gate_closing → Moves gate_closing w ln
  unfolding dispatch
  Moves-closing e = (ground arith, λ o h ne. ground arith, ground arith)

  Moves-timeout : ln.state ≡ timeout → Moves timeout w ln
  unfolding dispatch
  Moves-timeout e = (ground arith, λ o h ne. ground arith, ground arith)

  moves : (st : LaneState) → ln.state ≡ st → Moves st w ln
  moves idle = Moves-idle
  moves vehicle_wait = Moves-wait
  moves authorising = Moves-authorising
  moves gate_opening = Moves-opening
  moves gate_open = Moves-open
  moves vehicle_passing = Moves-passing
  moves gate_closing = Moves-closing
  moves rejected = Moves-rejected
  moves timeout = Moves-timeout

  -- A barrier that stands where its lane's state wants it still does after a call of LANE_Run: open while
  -- the gate opens, is held or is being passed, and closed in every other state. The other barrier
  -- does not move.
  pub run_gate :
      pulse w.board ln.servo_ch ≡ gate_pulse ln.state
      → let (w', ln') = run w ln in
        (pulse w'.board ln'.servo_ch ≡ gate_pulse ln'.state)
        × (ln'.servo_ch ≡ ln.servo_ch)
        × ((other : ℕ)
            → other < 2
            → other ≢ ln.servo_ch
            → pulse w'.board other ≡ pulse w.board other)
  unfolding run
  run_gate at =
      let (own_gate, other_gate, channel) = moves ln.state refl in
      (ap (pulse (run w ln).0.board) channel ∙ own_gate at, channel, other_gate)
