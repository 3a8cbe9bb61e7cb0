-- ===== src/Main/Sound/Tasks.antt =====
-- Every task of main.c keeps the program's data in their ranges.
use smart_parking_system_nti.Prelude.{
  ◌+◌, ◌≤◌, ◌==◌, ◌!=◌, ◌&&◌, ◌||◌, ltb, leb, flag, u8, if◌then◌else◌, choose, Bool-cases, not, inl,
  inr, some, length,
}
use smart_parking_system_nti.Board.{Board}
use smart_parking_system_nti.Board.Usart.{send_string}
use smart_parking_system_nti.Site.{Site}
use smart_parking_system_nti.Buttons
use smart_parking_system_nti.LoopSense
use smart_parking_system_nti.LoopSense.{LoopSense}
use smart_parking_system_nti.Board.Adc.{read_channel}
use smart_parking_system_nti.Lot.{is_maintenance, is_fault}
use smart_parking_system_nti.Lot.Counts.{run-IsCounted}
use smart_parking_system_nti.Light
use smart_parking_system_nti.Ticketing.{get_open_count}
use smart_parking_system_nti.Lot.Modes.{set_mode}
use smart_parking_system_nti.Lane.{LaneState, Lane, request_open, bar_open, bar_close}
use smart_parking_system_nti.Lane
use smart_parking_system_nti.Lane.Timers.{IsTimed, run-IsTimed}
use smart_parking_system_nti.Console.Ranges.{IsInRange}
use smart_parking_system_nti.Main.{
  System, lane_code, lot_code, send, send_event, send_id, send_uint16,
}
use smart_parking_system_nti.Main.Lanes.{
  enter_maintenance, leave_maintenance, run_lanes, entry_event, exit_event, report_lanes,
  task_lanes,
}
use smart_parking_system_nti.Main.Tasks.{
  task_buttons, read_buttons, buz_update, update_full_sign, follow_lot, scan_lot, task_lot,
  task_loops, task_display, check_mismatch, mismatch_event, report_overruns, task_1hz, task_report,
}
use smart_parking_system_nti.Lane.Sound.{IsSiteSound, run-IsSiteSound}

-- The tickets, the clock, the slot map, the counts, the totals, the settings, the timers of both lanes
-- and the line of the console are in their ranges.
abbrev pub IsSound : System → Type 0
IsSound y =
    IsSiteSound y.site
    × IsInRange y.settings
    × IsTimed y.entry.state y.entry.timer_ticks
    × IsTimed y.exit.state y.exit.timer_ticks
    × (length y.glue.line ≤ 24)

entry_event-IsSiteSound :
    (w : Site) (st : LaneState) → IsSiteSound w → IsSiteSound (entry_event w st)
unfolding entry_event send send_event send_id send_string
entry_event-IsSiteSound w st v =
    choose IsSiteSound (lane_code st == 3) v
      (choose IsSiteSound (lane_code st == 7) v (choose IsSiteSound (lane_code st == 8) v v))

exit_event-IsSiteSound : (w : Site) (st : LaneState) → IsSiteSound w → IsSiteSound (exit_event w st)
unfolding exit_event send send_event send_string
exit_event-IsSiteSound w st v = choose IsSiteSound (lane_code st == 8) v v

report_lanes-IsSound : (y : System) → IsSound y → IsSound (report_lanes y)
unfolding report_lanes
report_lanes-IsSound y (v, set, entry, exit, line) =
    let entered = lane_code y.entry.state != lane_code y.glue.prev_entry_state in
    let w1 = if entered then entry_event y.site y.entry.state else y.site in
    let v1 = choose IsSiteSound entered (entry_event-IsSiteSound y.site y.entry.state v) v in
    (
      choose IsSiteSound (lane_code y.exit.state != lane_code y.glue.prev_exit_state)
          (exit_event-IsSiteSound w1 y.exit.state v1) v1,
      set,
      entry,
      exit,
      line,
    )

run_lanes-IsSound : (y : System) → IsSound y → IsSound (run_lanes y)
unfolding run_lanes request_open
run_lanes-IsSound y (v, set, entry, exit, line) =
    let en = request_open y.entry y.entry_loop.confirmed_active in
    let active = flag (y.exit_loop.confirmed_active != 0 || y.glue.exit_btn_hold != 0) in
    let ex = request_open y.exit active in
    let w1 = (Lane.run y.site en).0 in
    (
      run-IsSiteSound w1 (run-IsSiteSound y.site v en) ex,
      set,
      run-IsTimed y.site en entry,
      run-IsTimed w1 ex exit,
      line,
    )

enter-IsSound : (y : System) → IsSound y → IsSound (enter_maintenance y)
unfolding enter_maintenance bar_open send_event send send_string
enter-IsSound y (v, set, entry, exit, line) = (v, set, tt, tt, line)

leave-IsSound : (y : System) → IsSound y → IsSound (leave_maintenance y)
unfolding leave_maintenance bar_close send_event send send_string
leave-IsSound y s = s

pub lanes-IsSound : (y : System) → IsSound y → IsSound (task_lanes y)
unfolding task_lanes
lanes-IsSound y s =
    let inside = y.glue.in_maintenance != 0 in
    let ready = if inside then leave_maintenance y else y in
    let resumed : IsSound ready = choose IsSound inside (leave-IsSound y s) s in
    choose IsSound (is_maintenance y.site.lot.state)
      (choose IsSound (y.glue.in_maintenance == 0) (enter-IsSound y s) s)
      (report_lanes-IsSound (run_lanes ready) (run_lanes-IsSound ready resumed))

read_buttons-IsSound : (y : System) → IsSound y → IsSound (read_buttons y)
unfolding read_buttons
read_buttons-IsSound y (v, set, entry, exit, line) =
    let enabled = if is_maintenance y.site.lot.state then 0 else 1 in
    let counted = ((set_mode y.site.lot enabled).2 v.3).0 in
    (
      choose IsSiteSound (Buttons.is_pressed y.buttons 3 != 0 && y.glue.prev_maint_btn == 0)
          (v.0, v.1, v.2, counted, v.4) v,
      set,
      entry,
      exit,
      line,
    )

pub buttons-IsSound : (y : System) → IsSound y → IsSound (task_buttons y)
unfolding task_buttons buz_update
buttons-IsSound y s =
    read_buttons-IsSound (record y { buttons = (Buttons.update y.buttons y.site.board.dio).1 }) s

pub scan_lot-IsSiteSound : (w : Site) → IsSiteSound w → IsSiteSound (scan_lot w)
unfolding scan_lot
scan_lot-IsSiteSound w (v, clock, six, counts, low) =
    let (counts', six', same) = run-IsCounted w.lot w.slots w.board.dio six counts in
    (v, clock, six', counts', low)

full_sign-IsSound : (y : System) → IsSound y → IsSound (update_full_sign y)
unfolding update_full_sign send_event send send_string
full_sign-IsSound y s =
    let sign = flag (y.site.lot.free_slots == 0 && not (is_maintenance y.site.lot.state)) in
    choose IsSound (sign != y.glue.prev_full_sign) s s

follow_lot-IsSound : (y : System) → IsSound y → IsSound (follow_lot y)
unfolding follow_lot bar_open send_event send send_string
follow_lot-IsSound y (v, set, entry, exit, line) =
    choose IsSound (lot_code y.site.lot.state != lot_code y.glue.prev_lot_state)
      (choose IsSiteSound (is_fault y.site.lot.state) v v, set, entry, exit, line)
      (v, set, entry, exit, line)

pub lot-IsSound : (y : System) → IsSound y → IsSound (task_lot y)
unfolding task_lot
lot-IsSound y (v, set, entry, exit, line) =
    let y1 = record y { site = scan_lot y.site } in
    follow_lot-IsSound (update_full_sign y1)
      (full_sign-IsSound y1 (scan_lot-IsSiteSound y.site v, set, entry, exit, line))

-- a loop is told to the lane, and neither its state nor its timer changes
loop-IsTimed :
    (s : LoopSense) (ln : Lane) (b : Board)
    → IsTimed ln.state ln.timer_ticks
    → let ln' = (LoopSense.run (some s) ln b).2 in IsTimed ln'.state ln'.timer_ticks
unfolding LoopSense.run read_channel LoopSense.observe request_open
loop-IsTimed s ln b timed =
    let raw = b.analog s.adc_channel in
    let Timed : LoopSense × Lane → Type 0 = λ r. IsTimed r.1.state r.1.timer_ticks in
    let seen : Timed (LoopSense.observe s ln raw) =
      choose Timed (LoopSense.vote s raw == s.confirmed_active) timed
        (choose Timed (leb 4 (u8 (s.candidate_count + 1))) timed timed) in
    elim (Bool-cases (ltb 7 s.adc_channel)) [
      | inl high ↦ rw (high, LoopSense.run) timed
      | inr low ↦ rw (low, LoopSense.run) seen
    ]

pub loops-IsSound : (y : System) → IsSound y → IsSound (task_loops y)
unfolding task_loops
loops-IsSound y (v, set, entry, exit, line) = (
  v,
  set,
  loop-IsTimed y.entry_loop y.entry y.site.board entry,
  loop-IsTimed y.exit_loop y.exit y.site.board exit,
  line,
)

pub display-IsSound : (y : System) → IsSound y → IsSound (task_display y)
unfolding task_display
display-IsSound y s = s

check-IsSound : (y : System) → IsSound y → IsSound (check_mismatch y)
unfolding check_mismatch mismatch_event send send_uint16 send_string
check-IsSound y s =
    let sec =
      if ltb y.glue.mismatch_sec 255 then y.glue.mismatch_sec + 1 else y.glue.mismatch_sec in
    choose IsSound (get_open_count y.site.tickets != y.site.lot.occupied_slots)
      (choose IsSound (ltb 30 sec && y.glue.mismatch_logged == 0) s s) s

overruns-IsSound : (y : System) → IsSound y → IsSound (report_overruns y)
unfolding report_overruns send send_uint16 send_string
overruns-IsSound y s = choose IsSound (y.glue.overrun_count != 0) s s

pub second-IsSound : (y : System) → IsSound y → IsSound (task_1hz y)
unfolding task_1hz
second-IsSound y s =
    let y1 = record y { light = (Light.run y.light y.settings.light_thresh y.site.board).1 } in
    overruns-IsSound (check_mismatch y1) (check-IsSound y1 s)

pub report-IsSound : (y : System) → IsSound y → IsSound (task_report y)
unfolding task_report
report-IsSound y s = s
