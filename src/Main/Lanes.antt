-- ===== src/Main/Lanes.antt =====
-- Task_Lanes in main.c: maintenance, the two lanes, and the events of their transitions.
use smart_parking_system_nti.Prelude.{◌-◌, ◌||◌, if◌then◌else◌, ◌==◌, ◌!=◌, flag}
use smart_parking_system_nti.Config.{pwm_ch_entry, pwm_ch_exit}
use smart_parking_system_nti.Text.{codes}
use smart_parking_system_nti.Ticketing.{crlf}
use smart_parking_system_nti.Lot.{is_maintenance}
use smart_parking_system_nti.Site.{Site}
use smart_parking_system_nti.Lane
use smart_parking_system_nti.Lane.{
  LaneState, Lane, idle, gate_opening, rejected, timeout, request_open, bar_open, bar_close,
}
use smart_parking_system_nti.Main.{System, lane_code, send, send_event, send_id, last_issued_id}

abbrev pub parked : Lane → Lane
parked ln = record ln { state = idle; timer_ticks = 0; loop_active = 0 }

unfoldable pub enter_maintenance : System → System
unfolding bar_open send_event
enter_maintenance y = record y {
  glue = record (y.glue) { in_maintenance = 1 };
  entry = parked y.entry;
  exit = parked y.exit;
  site = send_event (bar_open (bar_open y.site pwm_ch_entry) pwm_ch_exit) (codes "MAINT,ON");
}

unfoldable pub leave_maintenance : System → System
unfolding bar_close send_event
leave_maintenance y = record y {
  glue = record (y.glue) { in_maintenance = 0 };
  site = send_event (bar_close (bar_close y.site pwm_ch_entry) pwm_ch_exit) (codes "MAINT,OFF");
}

-- both lanes are told of their loops and run, the entry lane first
unfoldable pub run_lanes : System → System
unfolding request_open Lane.run
run_lanes y =
    let hold = y.glue.exit_btn_hold in
    let exit_active = flag (y.exit_loop.confirmed_active != 0 || hold != 0) in
    let (w1, entry) = Lane.run y.site (request_open y.entry y.entry_loop.confirmed_active) in
    let (w2, exit) = Lane.run w1 (request_open y.exit exit_active) in
    record y {
      site = w2;
      entry = entry;
      exit = exit;
      glue = record (y.glue) { exit_btn_hold = if hold != 0 then hold - 1 else hold };
    }

unfoldable pub entry_event : Site → LaneState → Site
unfolding send send_event send_id last_issued_id
entry_event w st =
    if lane_code st == lane_code gate_opening
    then send (send_id (send w (codes "!EVT,ENTRY,GRANT,")) (last_issued_id w.tickets)) crlf
    else if lane_code st == lane_code rejected
    then send_event w (codes "ENTRY,REJECT")
    else if lane_code st == lane_code timeout
    then send_event w (codes "LANE,TIMEOUT,IN")
    else w

unfoldable pub exit_event : Site → LaneState → Site
unfolding send_event
exit_event w st =
    if lane_code st == lane_code timeout then send_event w (codes "LANE,TIMEOUT,OUT") else w

-- an event for each lane whose state is not the one of the last report
unfoldable pub report_lanes : System → System
unfolding entry_event exit_event
report_lanes y =
    let w1 =
      if lane_code y.entry.state != lane_code y.glue.prev_entry_state
      then entry_event y.site y.entry.state
      else y.site in
    let w2 =
      if lane_code y.exit.state != lane_code y.glue.prev_exit_state
      then exit_event w1 y.exit.state
      else w1 in
    record y {
      site = w2;
      glue = record (y.glue) { prev_entry_state = y.entry.state; prev_exit_state = y.exit.state };
    }

unfoldable pub task_lanes : System → System
unfolding enter_maintenance leave_maintenance run_lanes report_lanes
task_lanes y =
    let ready = if y.glue.in_maintenance != 0 then leave_maintenance y else y in
    if is_maintenance y.site.lot.state
    then (if y.glue.in_maintenance == 0 then enter_maintenance y else y)
    else report_lanes (run_lanes ready)
