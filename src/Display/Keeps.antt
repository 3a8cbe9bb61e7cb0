-- ===== src/Display/Keeps.antt =====
-- The panel leaves the servos and the receive queue alone (APP/display/display_task.c and the drivers below it).
use smart_parking_system_nti.Prelude.{
  ℕ, zero, suc, ◌≡◌, refl, ◌∙◌, ◌==◌, ◌!=◌, ◌&&◌, choose, List, bit, ReturnType,
}
use smart_parking_system_nti.Board.{Board, Timer1, undisturbed}
use smart_parking_system_nti.RingBuffer.{RingBuffer}
use smart_parking_system_nti.Board.I2c
use smart_parking_system_nti.Board.I2c.{
  drive, line_low, line_release, scl_low, scl_release, sda_low, sda_release, sda_read, write_bit,
  read_bit, write_bits,
}
use smart_parking_system_nti.ShiftReg.{ShiftReg}
use smart_parking_system_nti.SlotLeds
use smart_parking_system_nti.Lcd.Keeps.{Keeps, paint-keeps}
use smart_parking_system_nti.Lot.{Lot}
use smart_parking_system_nti.Light.{Light}
use smart_parking_system_nti.Lane.{Lane}
use smart_parking_system_nti.Display.{
  Panel, i2c_bus, paint_line, update_leds, show_digit, line1, line2, refresh,
}

undisturbed-write_bit : (b : Board) (v : ℕ) → undisturbed (write_bit b v) ≡ undisturbed b
unfolding write_bit sda_release sda_low scl_low scl_release line_low line_release drive
undisturbed-write_bit b v =
    choose (λ (b' : Board). undisturbed b' ≡ undisturbed b) (v != 0) {x = sda_release b}
      {y = sda_low b} refl refl

undisturbed-write_bits :
    (b : Board) (byte n : ℕ) → undisturbed (write_bits b byte n) ≡ undisturbed b
unfolding write_bits
undisturbed-write_bits b byte zero = refl
undisturbed-write_bits b byte (suc n) =
    undisturbed-write_bits (write_bit b (bit byte n)) byte n ∙ undisturbed-write_bit b (bit byte n)

undisturbed-read_bit : (b : Board) → undisturbed (read_bit b).1 ≡ undisturbed b
unfolding read_bit sda_read sda_release scl_release scl_low line_low line_release drive
undisturbed-read_bit b = refl

undisturbed-write : (b : Board) (byte : ℕ) → undisturbed (I2c.write b byte).1 ≡ undisturbed b
unfolding I2c.write
undisturbed-write b byte =
    undisturbed-read_bit (write_bits b byte 8) ∙ undisturbed-write_bits b byte 8

pub i2c_bus-Keeps : (t : Timer1 × RingBuffer) → Keeps i2c_bus (λ b. undisturbed b ≡ t)
unfolding I2c.init I2c.start I2c.stop sda_release sda_low scl_low scl_release line_low line_release
    drive
i2c_bus-Keeps t = record {
  begin = λ b p. p;
  start = λ b p. p;
  stop = λ b p. p;
  write = λ b byte p. undisturbed-write b byte ∙ p;
}

pub undisturbed-paint :
    (p : Panel × Board) (row : ℕ) (text : List ℕ)
    → undisturbed (paint_line p row text).1 ≡ undisturbed p.1
unfolding paint_line
undisturbed-paint (p, b) row text =
    paint-keeps i2c_bus (λ b'. undisturbed b' ≡ undisturbed b) (i2c_bus-Keeps (undisturbed b)) p.lcd
      b row text refl

undisturbed-leds :
    (p : Panel × Board) (map lamps : ℕ) → undisturbed (update_leds p map lamps).1 ≡ undisturbed p.1
unfolding update_leds SlotLeds.update
undisturbed-leds (p, b) map lamps =
    let Same : ReturnType × SlotLeds.SlotLeds × ShiftReg × Board → Type 0 =
      λ r. undisturbed r.3 ≡ undisturbed b in
    choose Same (p.leds.primed != 0 && SlotLeds.compose map lamps == p.leds.last) refl refl

undisturbed-digit :
    (p : Panel × Board) (value : ℕ) → undisturbed (show_digit p value).1 ≡ undisturbed p.1
unfolding show_digit
undisturbed-digit (p, b) value = refl

pub undisturbed-refresh :
    (p : Panel) (b : Board) (lot : Lot) (light : Light) (entry exit : Lane)
    → undisturbed (refresh p b lot light entry exit).1 ≡ undisturbed b
unfolding refresh
undisturbed-refresh p b lot light entry exit =
    let p1 = update_leds (p, b) lot.slot_map light.lamps_on in
    let p2 = show_digit p1 lot.free_slots in
    let text1 = line1 lot.free_slots lot.occupied_slots in
    undisturbed-paint (paint_line p2 0 text1) 1 (line2 entry.state exit.state)
    ∙ undisturbed-paint p2 0 text1
    ∙ undisturbed-digit p1 lot.free_slots
    ∙ undisturbed-leds (p, b) lot.slot_map light.lamps_on
