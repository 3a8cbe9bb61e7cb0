-- ===== src/Main.antt =====
-- main.c: the program's own state, what it sends, and the state of every module that it starts and
-- runs. The tasks, the start-up and the super-loop are the child modules.
pub mod Lanes
pub mod Tasks
pub mod Ticks
pub mod Line
pub mod Boot
pub mod Loop
pub mod Barriers
pub mod Gates
pub mod Quiet
pub mod Rounds
pub mod Start
pub mod Failed
pub mod Drain
pub mod Assemble
pub mod Mismatch
pub mod Sound
pub mod Unseen
use smart_parking_system_nti.Prelude.{ℕ, ◌+◌, ◌-◌, List, [], ◌∷◌, if◌then◌else◌, leb, u16}
use smart_parking_system_nti.Config.{ticket_id_first, ticket_id_last}
use smart_parking_system_nti.Text.{codes, decimal, four_digits}
use smart_parking_system_nti.Board.{Board}
use smart_parking_system_nti.Board.Usart.{send_byte, send_string}
use smart_parking_system_nti.Ticketing.{Ticketing, crlf}
use smart_parking_system_nti.Lot.{LotState, initial, operational, full, maintenance, fault}
use smart_parking_system_nti.Site.{Site}
use smart_parking_system_nti.Console.Set.{Settings}
use smart_parking_system_nti.Buttons.{Button}
use smart_parking_system_nti.LoopSense.{LoopSense}
use smart_parking_system_nti.Light.{Light}
use smart_parking_system_nti.Display.{Panel}
use smart_parking_system_nti.Scheduler.{Scheduler}
use smart_parking_system_nti.Lane.{
  LaneState, Lane, idle, vehicle_wait, authorising, gate_opening, gate_open, vehicle_passing,
  gate_closing, rejected, timeout,
}

-- the static variables of main.c. The line is the characters that stand before `g_u8LinePos`.
pub record Glue : Type 0 where
  pub tick_flag : ℕ
  pub tick_overrun : ℕ
  pub overrun_count : ℕ
  pub prev_maint_btn : ℕ
  pub exit_btn_hold : ℕ
  pub prev_full_sign : ℕ
  pub prev_lot_state : LotState
  pub prev_entry_state : LaneState
  pub prev_exit_state : LaneState
  pub in_maintenance : ℕ
  pub mismatch_sec : ℕ
  pub mismatch_logged : ℕ
  pub line : List ℕ
  pub line_overflow : ℕ

-- the whole program: the modules' static variables, the two lanes with their loops, and the glue
pub record System : Type 0 where
  pub site : Site
  pub settings : Settings
  pub entry : Lane
  pub exit : Lane
  pub entry_loop : LoopSense
  pub exit_loop : LoopSense
  pub buttons : List Button
  pub light : Light
  pub panel : Panel
  pub sched : Scheduler
  pub glue : Glue

-- the enumerators as numbers, which `!=` compares
abbrev pub lane_code : LaneState → ℕ
lane_code idle = 0
lane_code vehicle_wait = 1
lane_code authorising = 2
lane_code gate_opening = 3
lane_code gate_open = 4
lane_code vehicle_passing = 5
lane_code gate_closing = 6
lane_code rejected = 7
lane_code timeout = 8

abbrev pub lot_code : LotState → ℕ
lot_code initial = 0
lot_code operational = 1
lot_code full = 2
lot_code maintenance = 3
lot_code fault = 4

-- MAIN_Send
unfoldable pub send : Site → List ℕ → Site
unfolding send_string
send w text = record w { board = send_string w.board text }

-- USART_SendByte for each byte
unfoldable pub send_bytes : Board → List ℕ → Board
unfolding send_byte
send_bytes b [] = b
send_bytes b (byte ∷ bytes) = send_bytes (send_byte b byte) bytes

unfoldable pub send_uint16 : Site → ℕ → Site
unfolding send_bytes decimal
send_uint16 w value = record w { board = send_bytes w.board (decimal 6 value) }

unfoldable pub send_event : Site → List ℕ → Site
unfolding send
send_event w body = send (send (send w (codes "!EVT,")) body) crlf

unfoldable pub send_id : Site → ℕ → Site
unfolding send_bytes four_digits
send_id w id = record w { board = send_bytes w.board (four_digits id) }

unfoldable pub last_issued_id : Ticketing → ℕ
last_issued_id t = if leb t.next_id ticket_id_first then ticket_id_last else u16 (t.next_id - 1)
