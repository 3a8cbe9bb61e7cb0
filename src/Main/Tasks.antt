-- ===== src/Main/Tasks.antt =====
-- The other periodic tasks of main.c: buttons, lot, loops, display, the 1 Hz checks and the report.
use smart_parking_system_nti.Prelude.{
  ℕ, ◌+◌, ◌&&◌, not, Option, some, none, [], ◌∷◌, if◌then◌else◌, ltb, ◌==◌, ◌!=◌, flag,
}
use smart_parking_system_nti.Config.{pwm_ch_entry, pwm_ch_exit}
use smart_parking_system_nti.Text.{codes}
use smart_parking_system_nti.Ticketing.{crlf, get_open_count}
use smart_parking_system_nti.Dio
use smart_parking_system_nti.Dio.{port_d, dio_low, dio_high}
use smart_parking_system_nti.Site.{Site}
use smart_parking_system_nti.Buttons
use smart_parking_system_nti.Buttons.{is_pressed}
use smart_parking_system_nti.Buzzer
use smart_parking_system_nti.Lot
use smart_parking_system_nti.Lot.{is_maintenance, is_fault, set_maintenance}
use smart_parking_system_nti.Lane.{bar_open}
use smart_parking_system_nti.LoopSense
use smart_parking_system_nti.LoopSense.{LoopSense}
use smart_parking_system_nti.Light
use smart_parking_system_nti.Display
use smart_parking_system_nti.Telemetry
use smart_parking_system_nti.Main.{System, lot_code, send, send_bytes, send_uint16, send_event}

abbrev pub fullsign_pin : ℕ
fullsign_pin = 6

abbrev pub btn_exit_pin : ℕ
btn_exit_pin = 2

abbrev pub btn_maint_pin : ℕ
btn_maint_pin = 3

abbrev pub exit_btn_hold_ticks : ℕ
exit_btn_hold_ticks = 300

abbrev pub mismatch_limit_sec : ℕ
mismatch_limit_sec = 30

-- `(void)BUZ_Update()`
unfoldable pub buz_update : Site → Site
unfolding Buzzer.update
buz_update w = let (r, z, b) = Buzzer.update w.buzzer w.board in record w { buzzer = z; board = b }

-- Task_Buttons up to BUZ_Update, with the buttons updated
unfoldable pub read_buttons : System → System
unfolding is_pressed set_maintenance
read_buttons y =
    let maint = is_pressed y.buttons btn_maint_pin in
    let toggled = set_maintenance y.site.lot (if is_maintenance y.site.lot.state then 0 else 1) in
    record y {
      site =
          if maint != 0 && y.glue.prev_maint_btn == 0
          then record (y.site) { lot = toggled }
          else y.site;
      glue = record (y.glue) {
        prev_maint_btn = maint;
        exit_btn_hold =
            if is_pressed y.buttons btn_exit_pin != 0
            then exit_btn_hold_ticks
            else y.glue.exit_btn_hold;
      };
    }

unfoldable pub task_buttons : System → System
unfolding Buttons.update read_buttons buz_update
task_buttons y =
    let y1 = read_buttons (record y { buttons = (Buttons.update y.buttons y.site.board.dio).1 }) in
    record y1 { site = buz_update y1.site }

-- the FULL sign, on a change
unfoldable pub update_full_sign : System → System
unfolding Dio.write_pin send_event
update_full_sign y =
    let sign = flag (y.site.lot.free_slots == 0 && not (is_maintenance y.site.lot.state)) in
    let level = if sign != 0 then dio_high else dio_low in
    let io = (Dio.write_pin y.site.board.dio port_d fullsign_pin level).1 in
    let w = record (y.site) { board = record (y.site.board) { dio = io } } in
    if sign != y.glue.prev_full_sign
    then record y {
      site = send_event w (if sign != 0 then codes "LOT,FULL" else codes "LOT,VACANT");
      glue = record (y.glue) { prev_full_sign = sign };
    }
    else y

-- the fail-safe, when the lot's state has changed
unfoldable pub follow_lot : System → System
unfolding bar_open send_event
follow_lot y =
    let opened = bar_open (bar_open y.site pwm_ch_entry) pwm_ch_exit in
    if lot_code y.site.lot.state != lot_code y.glue.prev_lot_state
    then record y {
      site = if is_fault y.site.lot.state then send_event opened (codes "LOT,FAULT") else y.site;
      glue = record (y.glue) { prev_lot_state = y.site.lot.state };
    }
    else y

-- LOT_Run
unfoldable pub scan_lot : Site → Site
unfolding Lot.run
scan_lot w = let (l, s) = Lot.run w.lot w.slots w.board.dio in record w { lot = l; slots = s }

unfoldable pub task_lot : System → System
unfolding scan_lot update_full_sign follow_lot
task_lot y = follow_lot (update_full_sign (record y { site = scan_lot y.site }))

-- what LOOPSENSE_Run leaves in the conditioner
abbrev pub kept : Option LoopSense → LoopSense → LoopSense
kept none s = s
kept (some s') s = s'

unfoldable pub task_loops : System → System
unfolding LoopSense.run
task_loops y =
    let (r1, s1, entry) = LoopSense.run (some y.entry_loop) y.entry y.site.board in
    let (r2, s2, exit) = LoopSense.run (some y.exit_loop) y.exit y.site.board in
    record y {
      entry_loop = kept s1 y.entry_loop;
      entry = entry;
      exit_loop = kept s2 y.exit_loop;
      exit = exit;
    }

unfoldable pub task_display : System → System
unfolding Display.refresh
task_display y =
    let (p, b) = Display.refresh y.panel y.site.board y.site.lot y.light y.entry y.exit in
    record y { panel = p; site = record (y.site) { board = b } }

-- the line of a mismatch
unfoldable pub mismatch_event : Site → ℕ → ℕ → Site
unfolding send send_uint16 send_bytes
mismatch_event w tickets occupied =
    let w1 = send_uint16 (send w (codes "!EVT,LOT,MISMATCH,")) tickets in
    let w2 = record w1 { board = send_bytes w1.board (b',' ∷ []) } in
    send (send_uint16 w2 occupied) crlf

-- the occupancy check, once a second
unfoldable pub check_mismatch : System → System
unfolding get_open_count mismatch_event
check_mismatch y =
    let tickets = get_open_count y.site.tickets in
    let occupied = y.site.lot.occupied_slots in
    let sec =
      if ltb y.glue.mismatch_sec 255 then y.glue.mismatch_sec + 1 else y.glue.mismatch_sec in
    if tickets != occupied
    then (if ltb mismatch_limit_sec sec && y.glue.mismatch_logged == 0
        then record y {
          site = mismatch_event y.site tickets occupied;
          glue = record (y.glue) { mismatch_sec = sec; mismatch_logged = 1 };
        }
        else record y { glue = record (y.glue) { mismatch_sec = sec } })
    else record y { glue = record (y.glue) { mismatch_sec = 0; mismatch_logged = 0 } }

unfoldable pub report_overruns : System → System
unfolding send send_uint16
report_overruns y =
    if y.glue.overrun_count != 0
    then record y {
      site = send (send_uint16 (send y.site (codes "!EVT,SCHED,OVR,")) y.glue.overrun_count) crlf;
      glue = record (y.glue) { overrun_count = 0 };
    }
    else y

unfoldable pub task_1hz : System → System
unfolding Light.run check_mismatch report_overruns
task_1hz y =
    let lit = (Light.run y.light y.settings.light_thresh y.site.board).1 in
    report_overruns (check_mismatch (record y { light = lit }))

unfoldable pub task_report : System → System
unfolding Telemetry.send
task_report y = record y {
  site = record (y.site) { board = (Telemetry.send y.site y.entry y.exit).1 };
}
