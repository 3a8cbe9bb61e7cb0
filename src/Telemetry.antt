-- ===== src/Telemetry.antt =====
-- APP/telemetry/telemetry.c: the status frame. A frame under construction is the bytes written to
-- the buffer so far, so its length is `pos`; `frame_max` is the buffer's size.
pub mod Frame
use smart_parking_system_nti.Prelude.{
  ℕ, ◌+◌, ◌-◌, ◌/◌, ◌%◌, Option, none, some, List, [], ◌∷◌, ◌++◌, if◌then◌else◌, ltb, u8, length,
  drop, get_or, ReturnType, e_ok, e_nok,
}
use smart_parking_system_nti.Text.{codes, decimal}
use smart_parking_system_nti.Ticketing.{crlf}
use smart_parking_system_nti.Checksum.{xor_checksum}
use smart_parking_system_nti.SoftRtc
use smart_parking_system_nti.Slots
use smart_parking_system_nti.Lot.{LotState, initial, operational, full, maintenance, fault}
use smart_parking_system_nti.Site.{Site}
use smart_parking_system_nti.Board.{Board}
use smart_parking_system_nti.Board.Usart.{send_string}
use smart_parking_system_nti.Lane.{
  LaneState, Lane, idle, vehicle_wait, authorising, gate_opening, gate_open, vehicle_passing,
  gate_closing, rejected, timeout,
}

-- `TELEM_FRAME_MAX_LEN`
abbrev pub frame_max : ℕ
frame_max = 112

-- The index is in range for every `LaneState_t`, so the `?` is never chosen.
abbrev pub lane_state_name : LaneState → List ℕ
lane_state_name idle = codes "IDLE"
lane_state_name vehicle_wait = codes "WAIT"
lane_state_name authorising = codes "AUTH"
lane_state_name gate_opening = codes "OPENING"
lane_state_name gate_open = codes "OPEN"
lane_state_name vehicle_passing = codes "PASS"
lane_state_name gate_closing = codes "CLOSING"
lane_state_name rejected = codes "REJECT"
lane_state_name timeout = codes "TIMEOUT"

abbrev pub mode_name : LotState → List ℕ
mode_name initial = codes "INIT"
mode_name operational = codes "OPER"
mode_name full = codes "FULL"
mode_name maintenance = codes "MAINT"
mode_name fault = codes "FAULT"

unfoldable pub append_str : List ℕ → List ℕ → List ℕ
append_str frame [] = frame
append_str frame (c ∷ text) =
    let rest = append_str (frame ++ (c ∷ [])) text in
    if ltb (length frame) (frame_max - 1) then rest else frame

-- The digits are copied one by one under the same test as a text's characters.
unfoldable pub append_uint : List ℕ → ℕ → List ℕ
unfolding append_str
append_uint frame value = append_str frame (decimal 10 value)

-- one of `Local_acHex`
abbrev pub hex_digit : ℕ → ℕ
hex_digit n = get_or (codes "0123456789ABCDEF") n 0

unfoldable pub append_hex_byte : List ℕ → ℕ → List ℕ
append_hex_byte frame value =
    if ltb (length frame) (frame_max - 2)
    then frame ++ (hex_digit (value / 16 % 16) ∷ hex_digit (value % 16) ∷ [])
    else frame

-- everything from LOT_GetFree() to RTC_Seconds(), which is what the checksum covers
unfoldable pub append_fields : Site → Lane → Lane → List ℕ → List ℕ
unfolding append_str append_uint append_hex_byte Slots.get_map SoftRtc.seconds
append_fields w entry exit f0 =
    let f1 = append_uint f0 w.lot.free_slots in
    let f2 = append_str f1 (codes ",O=") in
    let f3 = append_uint f2 w.lot.occupied_slots in
    let f4 = append_str f3 (codes ",MAP=") in
    let f5 = append_hex_byte f4 (Slots.get_map w.slots) in
    let f6 = append_str f5 (codes ",IN=") in
    let f7 = append_str f6 (lane_state_name entry.state) in
    let f8 = append_str f7 (codes ",OUT=") in
    let f9 = append_str f8 (lane_state_name exit.state) in
    let f10 = append_str f9 (codes ",T=") in
    let f11 = append_uint f10 w.tickets.total_entries in
    let f12 = append_str f11 (codes ",X=") in
    let f13 = append_uint f12 w.billing.total_exits in
    let f14 = append_str f13 (codes ",REV=") in
    let f15 = append_uint f14 w.billing.total_revenue in
    let f16 = append_str f15 (codes ",MODE=") in
    let f17 = append_str f16 (mode_name w.lot.state) in
    let f18 = append_str f17 (codes ",UP=") in append_uint f18 (SoftRtc.seconds w.rtc)

-- the checksum from `start` on, and the end of the frame
unfoldable pub finish : ℕ → List ℕ → List ℕ
unfolding append_str append_hex_byte
finish start body =
    let sum = xor_checksum (some (drop start body)) (u8 (length body - start)) in
    append_str (append_hex_byte (append_str body (codes "*")) sum) crlf

-- The buffer is `none` if NULL; what is given back is the text up to its NUL.
unfoldable pub build_frame : Site → Lane → Lane → Option (List ℕ) → ReturnType × Option (List ℕ)
unfolding append_fields finish append_str
build_frame w entry exit none = (e_nok, none)
build_frame w entry exit (some buf) =
    let head = append_str [] (codes "$PK,F=") in
    (e_ok, some (finish (length head) (append_fields w entry exit head)))

-- the branch on what `TELEM_BuildFrame` gives back
send_frame : Board → ReturnType × Option (List ℕ) → ReturnType × Board
unfolding send_string
send_frame b (e_ok, some text) = (e_ok, send_string b text)
send_frame b (e_ok, none) = (e_nok, b)
send_frame b (e_nok, frame) = (e_nok, b)

unfoldable pub send : Site → Lane → Lane → ReturnType × Board
unfolding send_frame
send w entry exit = send_frame w.board (build_frame w entry exit (some []))
