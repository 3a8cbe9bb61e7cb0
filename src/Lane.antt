-- ===== src/Lane.antt =====
-- APP/lane/lane_fsm.c: the state machine of one lane, which both lanes run. A `Lane_t *` is the lane
-- that is returned beside the site.
pub mod Calls
pub mod Steps
pub mod Timers
pub mod Gate
pub mod Progress
pub mod Tickets
pub mod Sound
use smart_parking_system_nti.Prelude.{ℕ, ◌+◌, Bool, if◌then◌else◌, ◌==◌, ◌!=◌, u16}
use smart_parking_system_nti.Config.{
  gate_travel_ticks, gate_hold_ticks, pass_timeout_ticks, reject_ticks, buz_pin,
}
use smart_parking_system_nti.Barrier.{open_barrier, close_barrier}
use smart_parking_system_nti.Buzzer.{turn_on, turn_off, beep}
use smart_parking_system_nti.Lot.{can_authorise_entry}
use smart_parking_system_nti.Ticketing.{on_entry_authorized}
use smart_parking_system_nti.Billing.{on_exit_authorized}
use smart_parking_system_nti.Site.{Site}

pub data LaneState : Type 0 where
  idle vehicle_wait authorising gate_opening gate_open vehicle_passing gate_closing rejected :
      LaneState
  timeout : LaneState

-- `Lane_t`
pub record Lane : Type 0 where
  pub state : LaneState
  pub timer_ticks : ℕ
  pub loop_active : ℕ
  pub servo_ch : ℕ
  pub is_entry : ℕ
  pub pass_count : ℕ
  pub fault_flag : ℕ

-- the calls that lane_fsm.c makes, on the site
unfoldable pub bar_open : Site → ℕ → Site
bar_open w channel = record w { board = (open_barrier w.board channel).1 }

unfoldable pub bar_close : Site → ℕ → Site
bar_close w channel = record w { board = (close_barrier w.board channel).1 }

unfoldable pub buz_on : Site → Site
buz_on w = record w { board = (turn_on w.board buz_pin).1 }

unfoldable pub buz_off : Site → Site
buz_off w = record w { board = (turn_off w.board buz_pin).1 }

unfoldable pub buz_beep : Site → ℕ → ℕ → Site
buz_beep w times ms =
    let (r, z, b) = beep w.buzzer w.board buz_pin times ms in record w { buzzer = z; board = b }

unfoldable pub tkt_on_entry : Site → Site
tkt_on_entry w =
    let (t, b) = on_entry_authorized w.tickets w.rtc w.slots w.lot w.board in
    record w { tickets = t; board = b }

unfoldable pub bil_on_exit : Site → Site
bil_on_exit w =
    let (l, t, b) = on_exit_authorized w.billing w.tickets w.rtc w.board in
    record w { billing = l; tickets = t; board = b }

unfoldable pub init : Site → ℕ → ℕ → Site × Lane
unfolding bar_close
init w servo_ch is_entry = (
  bar_close w servo_ch,
  record {
    state = idle;
    timer_ticks = 0;
    loop_active = 0;
    servo_ch = servo_ch;
    is_entry = is_entry;
    pass_count = 0;
    fault_flag = 0;
  },
)

-- `--timerTicks` on a `uint16`
abbrev pub down : ℕ → ℕ
down ticks = u16 (ticks + 65535)

-- the `switch`, a clause for each case
unfoldable pub dispatch : LaneState → Site → Lane → Site × Lane
dispatch idle w ln =
    (w, if ln.loop_active != 0 then record ln { timer_ticks = 20; state = vehicle_wait } else ln)
dispatch vehicle_wait w ln =
    if ln.loop_active == 0
    then (w, record ln { state = idle })
    else if down ln.timer_ticks == 0
    then (w, record ln { timer_ticks = 0; state = authorising })
    else (w, record ln { timer_ticks = down ln.timer_ticks })
dispatch authorising w ln =
    let opening = record ln { timer_ticks = gate_travel_ticks; state = gate_opening } in
    if ln.is_entry != 0
    then (if can_authorise_entry w.lot != 0
        then (bar_open (tkt_on_entry w) ln.servo_ch, opening)
        else (buz_on w, record ln { timer_ticks = reject_ticks; state = rejected }))
    else (bar_open (bil_on_exit w) ln.servo_ch, opening)
dispatch rejected w ln =
    if down ln.timer_ticks == 0
    then (buz_off w, record ln { timer_ticks = 0; state = idle })
    else (w, record ln { timer_ticks = down ln.timer_ticks })
dispatch gate_opening w ln =
    if down ln.timer_ticks == 0
    then (w, record ln { timer_ticks = gate_hold_ticks; state = gate_open })
    else (w, record ln { timer_ticks = down ln.timer_ticks })
dispatch gate_open w ln =
    if ln.loop_active != 0
    then (w, record ln { timer_ticks = pass_timeout_ticks; state = vehicle_passing })
    else if down ln.timer_ticks == 0
    then (
      bar_close w ln.servo_ch,
      record ln { timer_ticks = gate_travel_ticks; state = gate_closing },
    )
    else (w, record ln { timer_ticks = down ln.timer_ticks })
dispatch vehicle_passing w ln =
    if ln.loop_active == 0
    then (
      bar_close w ln.servo_ch,
      record ln {
        pass_count = u16 (ln.pass_count + 1);
        timer_ticks = gate_travel_ticks;
        state = gate_closing;
      },
    )
    else if down ln.timer_ticks == 0
    then (
      buz_beep (bar_close w ln.servo_ch) 3 100,
      record ln { timer_ticks = 0; fault_flag = 1; state = timeout },
    )
    else (w, record ln { timer_ticks = down ln.timer_ticks })
dispatch gate_closing w ln =
    if down ln.timer_ticks == 0
    then (w, record ln { timer_ticks = 0; state = idle })
    else (w, record ln { timer_ticks = down ln.timer_ticks })
dispatch timeout w ln =
    (w, if ln.loop_active == 0 then record ln { fault_flag = 0; state = idle } else ln)

unfoldable pub run : Site → Lane → Site × Lane
unfolding dispatch bar_open bar_close buz_on buz_off buz_beep tkt_on_entry bil_on_exit
run w ln = dispatch ln.state w ln

unfoldable pub request_open : Lane → ℕ → Lane
request_open ln active = record ln { loop_active = active }
