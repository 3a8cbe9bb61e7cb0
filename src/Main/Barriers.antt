-- ===== src/Main/Barriers.antt =====
-- What the parts of Task_Lanes in main.c do to the two barriers.
use smart_parking_system_nti.Prelude.{
  ℕ, ◌≡◌, ◌≢◌, refl, sym, ap, ◌∙◌, Bool, true, false, List, [], ◌∷◌, if◌then◌else◌, ◌!=◌, ◌||◌,
  flag, arith, choose, ◌==◌,
}
use smart_parking_system_nti.Config.{servo_open_us}
use smart_parking_system_nti.Text.{codes, four_digits}
use smart_parking_system_nti.Board.{Board, undisturbed}
use smart_parking_system_nti.Barrier.{open_barrier, close_barrier}
use smart_parking_system_nti.Barrier.Position.{pulse}
use smart_parking_system_nti.Site.{Site}
use smart_parking_system_nti.Lane
use smart_parking_system_nti.Lane.{LaneState, Lane, idle, bar_open, bar_close, request_open}
use smart_parking_system_nti.Lane.Calls.{pulse-undisturbed}
use smart_parking_system_nti.Lane.Gate.{gate_pulse, run_gate}
use smart_parking_system_nti.Main.{
  System, send_bytes, send, send_event, send_id, last_issued_id, lane_code,
}
use smart_parking_system_nti.Main.Lanes.{
  enter_maintenance, leave_maintenance, run_lanes, entry_event, exit_event, report_lanes,
}

-- the entry lane has channel 0 and the exit lane channel 1
abbrev pub HasChannels : System → Type 0
HasChannels y = (y.entry.servo_ch ≡ 0) × (y.exit.servo_ch ≡ 1)

-- both barriers stand where their lanes' states want them
abbrev pub IsGuarded : System → Type 0
IsGuarded y =
    (pulse y.site.board 0 ≡ gate_pulse y.entry.state)
    × (pulse y.site.board 1 ≡ gate_pulse y.exit.state)

-- outside maintenance the barriers follow the lanes; in it the lanes are idle
abbrev pub IsAligned : System → Type 0
IsAligned y =
    (y.glue.in_maintenance ≡ 0 → IsGuarded y)
    × (y.glue.in_maintenance ≢ 0 → (y.entry.state ≡ idle) × (y.exit.state ≡ idle))

pub undisturbed-send_bytes :
    (b : Board) (bytes : List ℕ) → undisturbed (send_bytes b bytes) ≡ undisturbed b
unfolding send_bytes
undisturbed-send_bytes b [] = refl
undisturbed-send_bytes b (c ∷ bytes) = undisturbed-send_bytes (record b { sent = _ }) bytes

undisturbed-send_id : (w : Site) (id : ℕ) → undisturbed (send_id w id).board ≡ undisturbed w.board
unfolding send_id
undisturbed-send_id w id = undisturbed-send_bytes w.board (four_digits id)

undisturbed-entry_event :
    (w : Site) (st : LaneState) → undisturbed (entry_event w st).board ≡ undisturbed w.board
unfolding entry_event send send_event
undisturbed-entry_event w st =
    let Q : Site → Type 0 = λ w'. undisturbed w'.board ≡ undisturbed w.board in
    choose Q (lane_code st == 3)
      (undisturbed-send_id (send w (codes "!EVT,ENTRY,GRANT,")) (last_issued_id w.tickets))
      (choose Q (lane_code st == 7) refl (choose Q (lane_code st == 8) refl refl))

undisturbed-exit_event :
    (w : Site) (st : LaneState) → undisturbed (exit_event w st).board ≡ undisturbed w.board
unfolding exit_event send_event send
undisturbed-exit_event w st =
    choose (λ (w' : Site). undisturbed w'.board ≡ undisturbed w.board) (lane_code st == 8) refl refl

undisturbed-if :
    (t : Bool) (w w' : Site)
    → undisturbed w.board ≡ undisturbed w'.board
    → undisturbed (if t then w else w').board ≡ undisturbed w'.board
undisturbed-if true w w' e = e
undisturbed-if false w w' e = refl

pub undisturbed-report :
    (y : System) → undisturbed (report_lanes y).site.board ≡ undisturbed y.site.board
unfolding report_lanes
undisturbed-report y =
    let entered = lane_code y.entry.state != lane_code y.glue.prev_entry_state in
    let e = entry_event y.site y.entry.state in
    let w1 = if entered then e else y.site in
    let left = lane_code y.exit.state != lane_code y.glue.prev_exit_state in
    undisturbed-if left (exit_event w1 y.exit.state) w1 (undisturbed-exit_event w1 y.exit.state)
    ∙ undisturbed-if entered e y.site (undisturbed-entry_event y.site y.entry.state)

pub pulse-report : (y : System) (c : ℕ) → pulse (report_lanes y).site.board c ≡ pulse y.site.board c
pulse-report y = pulse-undisturbed (report_lanes y).site.board y.site.board (undisturbed-report y)

run_lanes-IsGuarded :
    (y : System) → HasChannels y → IsGuarded y → IsGuarded (run_lanes y) × HasChannels (run_lanes y)
unfolding run_lanes request_open
run_lanes-IsGuarded y (at_entry, at_exit) (entry_gate, exit_gate) =
    let entry = request_open y.entry y.entry_loop.confirmed_active in
    let w1 = (Lane.run y.site entry).0 in
    let (g1, c1, o1) =
      run_gate y.site entry (omega arith) (ap (pulse y.site.board) at_entry ∙ entry_gate) in
    let exit =
      request_open y.exit (flag (y.exit_loop.confirmed_active != 0 || y.glue.exit_btn_hold != 0)) in
    let (g2, c2, o2) =
      run_gate w1 exit (omega arith)
        (ap (pulse w1.board) at_exit ∙ o1 1 (omega arith) (ground arith) ∙ exit_gate) in
    (
      (
        o2 0 (omega arith) (ground arith) ∙ sym (ap (pulse w1.board) (c1 ∙ at_entry)) ∙ g1,
        sym (ap (pulse (Lane.run w1 exit).0.board) (c2 ∙ at_exit)) ∙ g2,
      ),
      (c1 ∙ at_entry, c2 ∙ at_exit),
    )

pub enter_lem :
    (y : System)
    → let y' = enter_maintenance y in
      (pulse y'.site.board 0 ≡ servo_open_us)
      × (pulse y'.site.board 1 ≡ servo_open_us)
      × (y'.site.board.timer2 ≡ y.site.board.timer2)
unfolding enter_maintenance send_event send pulse bar_open open_barrier
enter_lem y = (refl, refl, refl)

pub leave-IsGuarded :
    (y : System) → y.entry.state ≡ idle → y.exit.state ≡ idle → IsGuarded (leave_maintenance y)
unfolding leave_maintenance send_event send pulse bar_close close_barrier
leave-IsGuarded y entry exit = (ap gate_pulse (sym entry), ap gate_pulse (sym exit))

-- a call outside maintenance, from the moment on at which the lanes run
pub outside :
    (y : System)
    → HasChannels y
    → IsGuarded y
    → let y' = report_lanes (run_lanes y) in
      IsGuarded y' × HasChannels y' × (y'.glue.in_maintenance ≡ y.glue.in_maintenance)
unfolding report_lanes run_lanes
outside y channels guarded =
    let ((entry, exit), same) = run_lanes-IsGuarded y channels guarded in
    ((pulse-report (run_lanes y) 0 ∙ entry, pulse-report (run_lanes y) 1 ∙ exit), same, refl)
