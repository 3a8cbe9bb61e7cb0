-- ===== src/Lane/Sound.antt =====
-- The ranges of the data that the lanes share, under the calls of LANE_Run (APP/lane/lane_fsm.c).
use smart_parking_system_nti.Prelude.{◌<◌, ◌==◌, ◌!=◌, choose, some}
use smart_parking_system_nti.Lot.{can_authorise_entry}
use smart_parking_system_nti.Lot.Counts.{IsSixBit, IsCounted}
use smart_parking_system_nti.Ticketing.{close_oldest}
use smart_parking_system_nti.Ticketing.Valid.{IsValid, on_entry-IsValid, close_oldest-IsValid}
use smart_parking_system_nti.Billing.{on_exit_authorized}
use smart_parking_system_nti.Billing.Bounds.{IsBounded, settle-IsBounded}
use smart_parking_system_nti.Site.{Site}
use smart_parking_system_nti.Lane.{
  LaneState, Lane, idle, vehicle_wait, authorising, gate_opening, gate_open, vehicle_passing,
  gate_closing, rejected, timeout, dispatch, run, down, bar_open, bar_close, buz_on, buz_off,
  buz_beep, tkt_on_entry, bil_on_exit,
}

-- everything of the site but the board and the buzzer
abbrev pub IsSiteSound : Site → Type 0
IsSiteSound w =
    IsValid w.tickets
    × (w.rtc.uptime_sec < 4294967296)
    × IsSixBit w.slots
    × IsCounted w.lot
    × IsBounded w.billing

module _ (w : Site) (sound : IsSiteSound w) where
  entry-IsSiteSound : IsSiteSound (tkt_on_entry w)
  unfolding tkt_on_entry
  entry-IsSiteSound =
      let (v, clock, six, counts, low) = sound in
      (on_entry-IsValid w.tickets w.rtc w.slots w.lot w.board v clock six, clock, six, counts, low)

  exit-IsSiteSound : IsSiteSound (bil_on_exit w)
  unfolding bil_on_exit on_exit_authorized
  exit-IsSiteSound =
      let (v, clock, six, counts, low) = sound in
      let closed = close_oldest w.tickets (some 0) (some 0) in
      let (low', v') =
        settle-IsBounded w.billing w.rtc w.board closed low
          (close_oldest-IsValid w.tickets 0 0 v) in
      (v', clock, six, counts, low')

  dispatch-IsSiteSound : (st : LaneState) (ln : Lane) → IsSiteSound (dispatch st w ln).0
  unfolding dispatch bar_open bar_close buz_on buz_off buz_beep
  dispatch-IsSiteSound idle ln = sound
  dispatch-IsSiteSound vehicle_wait ln =
      let Q : Site × Lane → Type 0 = λ r. IsSiteSound r.0 in
      choose Q (ln.loop_active == 0) sound (choose Q (down ln.timer_ticks == 0) sound sound)
  dispatch-IsSiteSound authorising ln =
      let Q : Site × Lane → Type 0 = λ r. IsSiteSound r.0 in
      choose Q (ln.is_entry != 0)
        (choose Q (can_authorise_entry w.lot != 0) entry-IsSiteSound sound) exit-IsSiteSound
  dispatch-IsSiteSound gate_open ln =
      let Q : Site × Lane → Type 0 = λ r. IsSiteSound r.0 in
      choose Q (ln.loop_active != 0) sound (choose Q (down ln.timer_ticks == 0) sound sound)
  dispatch-IsSiteSound vehicle_passing ln =
      let Q : Site × Lane → Type 0 = λ r. IsSiteSound r.0 in
      choose Q (ln.loop_active == 0) sound (choose Q (down ln.timer_ticks == 0) sound sound)
  dispatch-IsSiteSound timeout ln = sound
  dispatch-IsSiteSound gate_opening ln =
      choose (λ (r : Site × Lane). IsSiteSound r.0) (down ln.timer_ticks == 0) sound sound
  dispatch-IsSiteSound gate_closing ln =
      choose (λ (r : Site × Lane). IsSiteSound r.0) (down ln.timer_ticks == 0) sound sound
  dispatch-IsSiteSound rejected ln =
      choose (λ (r : Site × Lane). IsSiteSound r.0) (down ln.timer_ticks == 0) sound sound

  -- Every call of LANE_Run keeps the shared data in their ranges.
  pub run-IsSiteSound : (ln : Lane) → IsSiteSound (run w ln).0
  unfolding run
  run-IsSiteSound ln = dispatch-IsSiteSound ln.state ln
