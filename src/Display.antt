-- ===== src/Display.antt =====
-- APP/display/display_task.c: the lamps, the digit and the two text lines, from the state of the
-- lot, the light and the lanes.
pub mod Keeps
pub mod Wire
pub mod Rows
pub mod Shown
pub mod Start
use smart_parking_system_nti.Prelude.{ℕ, ◌+◌, some, List, [], ◌∷◌, ◌++◌, u8, ReturnType, e_ok}
use smart_parking_system_nti.Text.{codes}
use smart_parking_system_nti.Board.{Board}
use smart_parking_system_nti.Board.I2c
use smart_parking_system_nti.ShiftReg.{ShiftReg}
use smart_parking_system_nti.SlotLeds
use smart_parking_system_nti.SlotLeds.{SlotLeds}
use smart_parking_system_nti.SevenSeg
use smart_parking_system_nti.SevenSeg.{SevenSeg}
use smart_parking_system_nti.Lcd
use smart_parking_system_nti.Lcd.{Lcd, Bus}
use smart_parking_system_nti.Lot.{Lot}
use smart_parking_system_nti.Light.{Light}
use smart_parking_system_nti.Lane.{
  LaneState, Lane, idle, vehicle_wait, authorising, gate_opening, gate_open, vehicle_passing,
  gate_closing, rejected, timeout,
}

-- the static variables of the four modules that drive the panel
pub record Panel : Type 0 where
  pub chain : ShiftReg
  pub leds : SlotLeds
  pub digit : SevenSeg
  pub lcd : Lcd

-- i2c.c as the bus of the character display
abbrev pub i2c_bus : Bus Board
i2c_bus = record { begin = I2c.init; start = I2c.start; stop = I2c.stop; write = I2c.write }

unfoldable pub init : ReturnType
init = e_ok

-- LANE_Name; no state is outside the enumeration, so the `?` is never chosen
abbrev pub lane_name : LaneState → List ℕ
lane_name idle = codes "IDLE"
lane_name vehicle_wait = codes "WAIT"
lane_name authorising = codes "AUTH"
lane_name gate_opening = codes "OPEN"
lane_name gate_open = codes "OPEN"
lane_name vehicle_passing = codes "PASS"
lane_name gate_closing = codes "CLOS"
lane_name rejected = codes "REJ "
lane_name timeout = codes "TIME"

-- the texts of DISPLAY_PaintLine1 and DISPLAY_PaintLine2, without the NUL at their ends
unfoldable pub line1 : ℕ → ℕ → List ℕ
line1 free occupied =
    codes "FREE:" ++ (u8 (b'0' + free) ∷ codes "  OCC:" ++ (u8 (b'0' + occupied) ∷ codes "   "))

unfoldable pub line2 : LaneState → LaneState → List ℕ
line2 entry exit = codes "IN:" ++ lane_name entry ++ codes " OUT:" ++ lane_name exit

-- a call of LCD_Paint, whose status nobody reads
unfoldable pub paint_line : Panel × Board → ℕ → List ℕ → Panel × Board
unfolding Lcd.paint
paint_line (p, b) row text =
    let (r, d, b') = Lcd.paint i2c_bus p.lcd b row (some text) in (record p { lcd = d }, b')

unfoldable pub update_leds : Panel × Board → ℕ → ℕ → Panel × Board
unfolding SlotLeds.update
update_leds (p, b) map lamps =
    let (r, l, s, b') = SlotLeds.update p.leds p.chain b map lamps in
    (record p { leds = l; chain = s }, b')

unfoldable pub show_digit : Panel × Board → ℕ → Panel × Board
unfolding SevenSeg.show
show_digit (p, b) value =
    let (r, d, io) = SevenSeg.show p.digit b.dio value in
    (record p { digit = d }, record b { dio = io })

-- DISPLAY_Task
unfoldable pub refresh : Panel → Board → Lot → Light → Lane → Lane → Panel × Board
unfolding paint_line update_leds show_digit line1 line2
refresh p b lot light entry exit =
    let lamps = update_leds (p, b) lot.slot_map light.lamps_on in
    let digit = show_digit lamps lot.free_slots in
    let first = paint_line digit 0 (line1 lot.free_slots lot.occupied_slots) in
    paint_line first 1 (line2 entry.state exit.state)
