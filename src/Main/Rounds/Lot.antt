-- ===== src/Main/Rounds/Lot.antt =====
-- What the tasks of main.c do to the mode of the lot and to the receive queue.
use smart_parking_system_nti.Prelude.{
  ℕ, ◌≡◌, refl, ap, ◌∙◌, false, choose, ◌==◌, ◌!=◌, ◌&&◌, ◌||◌, flag, not, if◌then◌else◌, ltb, ◌+◌,
  arith,
}
use smart_parking_system_nti.Dio
use smart_parking_system_nti.Slots.{Slots, poll}
use smart_parking_system_nti.Lot
use smart_parking_system_nti.Lot.{
  Lot, LotState, is_fault, is_maintenance, open_mode, set_maintenance, can_authorise_entry,
}
use smart_parking_system_nti.Ticketing.{get_open_count}
use smart_parking_system_nti.Site.{Site}
use smart_parking_system_nti.Buttons
use smart_parking_system_nti.Light
use smart_parking_system_nti.Lane
use smart_parking_system_nti.Lane.{
  LaneState, Lane, idle, vehicle_wait, authorising, gate_opening, gate_open, vehicle_passing,
  gate_closing, rejected, timeout, dispatch, down, bar_open, bar_close, buz_on, buz_off, buz_beep,
  tkt_on_entry, bil_on_exit, request_open,
}
use smart_parking_system_nti.Main.{
  System, lane_code, lot_code, send, send_event, send_id, send_uint16,
}
use smart_parking_system_nti.Main.Lanes.{
  task_lanes, enter_maintenance, leave_maintenance, run_lanes, report_lanes, entry_event,
  exit_event,
}
use smart_parking_system_nti.Main.Tasks.{
  task_buttons, read_buttons, buz_update, update_full_sign, follow_lot, task_1hz, check_mismatch,
  mismatch_event, report_overruns,
}
use smart_parking_system_nti.Lane.Calls.{undisturbed-tkt, undisturbed-bil, undisturbed-buz_beep}
use smart_parking_system_nti.Buzzer.{turn_on, turn_off}
use smart_parking_system_nti.Board.{Timer1, undisturbed}
use smart_parking_system_nti.RingBuffer.{RingBuffer}
use smart_parking_system_nti.Main.Barriers.{undisturbed-report}
use smart_parking_system_nti.Main.Drain.{rx-barriers}
use smart_parking_system_nti.Main.Quiet.{IsQuiet}

-- the lot works
abbrev pub Works : Lot → Type 0
Works l = is_fault l.state ≡ false

-- what no lane changes: the lot, and the receive queue
abbrev pub beside : Site → Lot × RingBuffer
beside w = (w.lot, w.board.rx)

abbrev pub Same : Site → Site → Type 0
Same w w' = beside w' ≡ beside w

-- a call that leaves what only the barriers and the receiver change, and the lot
undisturbed-Same :
    (w w' : Site) → w'.lot ≡ w.lot → undisturbed w'.board ≡ undisturbed w.board → Same w w'
undisturbed-Same w w' lot e =
    ap (λ (l : Lot). (l, w'.board.rx)) lot ∙ ap (λ (r : Timer1 × RingBuffer). (w.lot, r.1)) e

bars-Same : (w : Site) (c : ℕ) → Same w (bar_open w c) × Same w (bar_close w c)
unfolding bar_open bar_close
bars-Same w c =
    let (o, s) = rx-barriers w.board c in
    (ap (λ (r : RingBuffer). (w.lot, r)) o, ap (λ (r : RingBuffer). (w.lot, r)) s)

dispatch-Same : (st : LaneState) (w : Site) (ln : Lane) → Same w (dispatch st w ln).0
unfolding dispatch buz_on buz_off turn_on turn_off buz_beep tkt_on_entry bil_on_exit
dispatch-Same idle w ln = refl
dispatch-Same vehicle_wait w ln =
    let Q : Site × Lane → Type 0 = λ r. Same w r.0 in
    choose Q (ln.loop_active == 0) refl (choose Q (down ln.timer_ticks == 0) refl refl)
dispatch-Same authorising w ln =
    let Q : Site × Lane → Type 0 = λ r. Same w r.0 in
    let entered : Same w (tkt_on_entry w) =
      undisturbed-Same w (tkt_on_entry w) refl (undisturbed-tkt w) in
    let left : Same w (bil_on_exit w) =
      undisturbed-Same w (bil_on_exit w) refl (undisturbed-bil w) in
    choose Q (ln.is_entry != 0)
      (choose Q (can_authorise_entry w.lot != 0)
        ((bars-Same (tkt_on_entry w) ln.servo_ch).0 ∙ entered) refl)
      ((bars-Same (bil_on_exit w) ln.servo_ch).0 ∙ left)
dispatch-Same gate_open w ln =
    let Q : Site × Lane → Type 0 = λ r. Same w r.0 in
    choose Q (ln.loop_active != 0) refl
      (choose Q (down ln.timer_ticks == 0) (bars-Same w ln.servo_ch).1 refl)
dispatch-Same vehicle_passing w ln =
    let Q : Site × Lane → Type 0 = λ r. Same w r.0 in
    let w1 = bar_close w ln.servo_ch in
    let closed : Same w w1 = (bars-Same w ln.servo_ch).1 in
    let sounded : Same w1 (buz_beep w1 3 100) =
      undisturbed-Same w1 (buz_beep w1 3 100) refl (undisturbed-buz_beep w1 3 100) in
    choose Q (ln.loop_active == 0) closed
      (choose Q (down ln.timer_ticks == 0) (sounded ∙ closed) refl)
dispatch-Same timeout w ln = refl
dispatch-Same gate_opening w ln =
    choose (λ (r : Site × Lane). Same w r.0) (down ln.timer_ticks == 0) refl refl
dispatch-Same gate_closing w ln =
    choose (λ (r : Site × Lane). Same w r.0) (down ln.timer_ticks == 0) refl refl
dispatch-Same rejected w ln =
    choose (λ (r : Site × Lane). Same w r.0) (down ln.timer_ticks == 0) refl refl

lanes-Same : (y : System) → Same y.site (run_lanes y).site
unfolding run_lanes request_open Lane.run
lanes-Same y =
    let en = request_open y.entry y.entry_loop.confirmed_active in
    let active = flag (y.exit_loop.confirmed_active != 0 || y.glue.exit_btn_hold != 0) in
    let ex = request_open y.exit active in
    dispatch-Same ex.state (Lane.run y.site en).0 ex ∙ dispatch-Same en.state y.site en

entry_event-lot : (w : Site) (st : LaneState) → (entry_event w st).lot ≡ w.lot
unfolding entry_event send send_event send_id
entry_event-lot w st =
    let Q : Site → Type 0 = λ w'. w'.lot ≡ w.lot in
    choose Q (lane_code st == 3) refl
      (choose Q (lane_code st == 7) refl (choose Q (lane_code st == 8) refl refl))

exit_event-lot : (w : Site) (st : LaneState) → (exit_event w st).lot ≡ w.lot
unfolding exit_event send send_event
exit_event-lot w st = choose (λ (w' : Site). w'.lot ≡ w.lot) (lane_code st == 8) refl refl

report_lanes-Same : (y : System) → Same y.site (report_lanes y).site
unfolding report_lanes
report_lanes-Same y =
    let Q : Site → Type 0 = λ w'. w'.lot ≡ y.site.lot in
    let entered = lane_code y.entry.state != lane_code y.glue.prev_entry_state in
    let w1 = if entered then entry_event y.site y.entry.state else y.site in
    let s1 = choose Q entered (entry_event-lot y.site y.entry.state) refl in
    let lot : Q (report_lanes y).site =
      choose Q (lane_code y.exit.state != lane_code y.glue.prev_exit_state)
        (exit_event-lot w1 y.exit.state ∙ s1) s1 in
    undisturbed-Same y.site (report_lanes y).site lot (undisturbed-report y)

enter-Same : (y : System) → Same y.site (enter_maintenance y).site
unfolding enter_maintenance send_event send
enter-Same y = (bars-Same (bar_open y.site 0) 1).0 ∙ (bars-Same y.site 0).0

leave-Same : (y : System) → Same y.site (leave_maintenance y).site
unfolding leave_maintenance send_event send
leave-Same y = (bars-Same (bar_close y.site 0) 1).1 ∙ (bars-Same y.site 0).1

pub task_lanes-Same : (y : System) → Same y.site (task_lanes y).site
unfolding task_lanes
task_lanes-Same y =
    let Q : System → Type 0 = λ y'. Same y.site y'.site in
    let inside = y.glue.in_maintenance != 0 in
    let ready = if inside then leave_maintenance y else y in
    let resumed : Q ready = choose Q inside (leave-Same y) refl in
    choose Q (is_maintenance y.site.lot.state)
      (choose Q (y.glue.in_maintenance == 0) (enter-Same y) refl)
      (report_lanes-Same (run_lanes ready) ∙ lanes-Same ready ∙ resumed)

-- a step of the program leaves the lot alone
abbrev pub Kept : System → System → Type 0
Kept y y' = y'.site.lot ≡ y.site.lot

check-lot : (y : System) → Kept y (check_mismatch y)
unfolding check_mismatch mismatch_event send send_uint16
check-lot y =
    let sec =
      if ltb y.glue.mismatch_sec 255 then y.glue.mismatch_sec + 1 else y.glue.mismatch_sec in
    choose (Kept y) (get_open_count y.site.tickets != y.site.lot.occupied_slots)
      (choose (Kept y) (ltb 30 sec && y.glue.mismatch_logged == 0) refl refl) refl

pub second-lot : (y : System) → Kept y (task_1hz y)
unfolding task_1hz report_overruns send send_uint16
second-lot y =
    let y1 = record y { light = (Light.run y.light y.settings.light_thresh y.site.board).1 } in
    let checked = check-lot y1 in
    choose (Kept y) ((check_mismatch y1).glue.overrun_count != 0) checked checked

open_mode-Works : (free : ℕ) → is_fault (open_mode free) ≡ false
open_mode-Works free = ground arith

toggled-Works : (l : Lot) → Works (set_maintenance l (if is_maintenance l.state then 0 else 1))
unfolding set_maintenance
toggled-Works l =
    choose (λ (k : ℕ). Works (set_maintenance l k)) (is_maintenance l.state)
      (open_mode-Works l.free_slots) refl

pub buttons-Works : (y : System) → Works y.site.lot → Works (task_buttons y).site.lot
unfolding task_buttons read_buttons buz_update
buttons-Works y works =
    choose (λ (w : Site). Works w.lot)
      (Buttons.is_pressed (Buttons.update y.buttons y.site.board.dio).1 3 != 0
        && y.glue.prev_maint_btn == 0)
      (toggled-Works y.site.lot) works

pub scan-Works : (l : Lot) (s : Slots) (io : Dio.Dio) → Works l → Works (Lot.run l s io).0
unfolding Lot.run poll
scan-Works l s io works = ground (arith, works)

-- neither the barriers and lanes nor the lot
abbrev pub IsStill : System → System → Type 0
IsStill y y' = IsQuiet y y' × Kept y y'

pub sign-IsStill : (y : System) → IsStill y (update_full_sign y)
unfolding update_full_sign send_event send
sign-IsStill y =
    choose (IsStill y)
      (flag (y.site.lot.free_slots == 0 && not (is_maintenance y.site.lot.state))
        != y.glue.prev_full_sign)
      ((refl, refl, refl, refl, refl, refl), refl) ((refl, refl, refl, refl, refl, refl), refl)

-- a lot that works opens no barrier
pub follow-IsStill : (y : System) → Works y.site.lot → IsStill y (follow_lot y)
unfolding follow_lot
follow-IsStill y works = rw works (
    choose (IsStill y) (lot_code y.site.lot.state != lot_code y.glue.prev_lot_state)
      ((refl, refl, refl, refl, refl, refl), refl) ((refl, refl, refl, refl, refl, refl), refl))
