-- ===== src/Board/I2c.antt =====
-- MCAL/i2c/i2c.c: the bit-banged bus of the display, SCL on PC0 and SDA on PC1. Delays have no
-- effect on the state. `Wires.levels` grows by the levels of both lines after each call on the
-- digital pins; a line that is not driven is high. Before a reading of SDA the circuit sets the pin
-- to the next of `Wires.answers`, or leaves it where none is given.
pub mod Lines
pub mod Receiver
pub mod Calls
use smart_parking_system_nti.Prelude.{
  ℕ, zero, suc, ◌*◌, Option, none, some, List, [], ◌∷◌, if◌then◌else◌, ◌==◌, ◌!=◌, bit, u8, bit_or,
  ReturnType, e_ok, e_nok,
}
use smart_parking_system_nti.Dio
use smart_parking_system_nti.Dio.{
  Dio, port_c, dio_low, dio_output, dio_input_pullup, set_bit, clear_bit,
}
use smart_parking_system_nti.Board.{Board}

abbrev pub scl_pin : ℕ
scl_pin = 0

abbrev pub sda_pin : ℕ
sda_pin = 1

-- the level of a line of port C: what is driven, or the pull-up
abbrev pub line : Dio → ℕ → ℕ
line io pin = if bit io.c.ddr pin == 1 then bit io.c.port pin else 1

-- a call on the digital pins, and the levels after it
unfoldable pub drive : Board → ReturnType × Dio → Board
drive b (r, io) = record b {
  dio = io;
  wires = record (b.wires) { levels = (line io scl_pin, line io sda_pin) ∷ b.wires.levels };
}

unfoldable pub line_low : Board → ℕ → Board
unfolding drive Dio.init Dio.write_pin
line_low b pin =
    let b1 = drive b (Dio.init b.dio port_c pin dio_output) in
    drive b1 (Dio.write_pin b1.dio port_c pin dio_low)

unfoldable pub line_release : Board → ℕ → Board
unfolding drive Dio.init
line_release b pin = drive b (Dio.init b.dio port_c pin dio_input_pullup)

-- I2C_SclLow, I2C_SclRelease, I2C_SdaLow and I2C_SdaRelease
unfoldable pub scl_low : Board → Board
scl_low b = line_low b scl_pin

unfoldable pub scl_release : Board → Board
scl_release b = line_release b scl_pin

unfoldable pub sda_low : Board → Board
sda_low b = line_low b sda_pin

unfoldable pub sda_release : Board → Board
sda_release b = line_release b sda_pin

-- the circuit's part of a reading
unfoldable pub answered : Dio → List ℕ → Dio
answered io [] = io
answered io (a ∷ answers) = record io {
  c = record (io.c) {
    pin = if a == 0 then clear_bit io.c.pin sda_pin else set_bit io.c.pin sda_pin;
  };
}

abbrev pub rest_of : List ℕ → List ℕ
rest_of [] = []
rest_of (a ∷ answers) = answers

abbrev pub value_of : Option ℕ → ℕ
value_of none = 0
value_of (some v) = v

unfoldable pub sda_read : Board → ℕ × Board
unfolding Dio.read_pin answered
sda_read b =
    let io = answered b.dio b.wires.answers in
    (
      value_of (Dio.read_pin io port_c sda_pin).1,
      record b { dio = io; wires = record (b.wires) { answers = rest_of b.wires.answers } },
    )

unfoldable pub write_bit : Board → ℕ → Board
unfolding scl_low scl_release
write_bit b v = scl_low (scl_release (if v != 0 then sda_release b else sda_low b))

unfoldable pub read_bit : Board → ℕ × Board
unfolding scl_low scl_release sda_release sda_read
read_bit b = let (v, b') = sda_read (scl_release (sda_release b)) in (v, scl_low b')

unfoldable pub init : Board → ReturnType × Board
unfolding scl_release sda_release
init b = (e_ok, sda_release (scl_release b))

unfoldable pub start : Board → ReturnType × Board
unfolding scl_low scl_release sda_low sda_release
start b = (e_ok, scl_low (sda_low (scl_release (sda_release b))))

unfoldable pub stop : Board → ReturnType × Board
unfolding scl_release sda_low sda_release
stop b = (e_ok, sda_release (scl_release (sda_low b)))

-- the bits of a byte from bit `left - 1` down
unfoldable pub write_bits : Board → ℕ → ℕ → Board
unfolding write_bit
write_bits b byte zero = b
write_bits b byte (suc k) = write_bits (write_bit b (bit byte k)) byte k

unfoldable pub write : Board → ℕ → ReturnType × Board
unfolding write_bits read_bit
write b byte =
    let (ack, b') = read_bit (write_bits b byte 8) in ((if ack == 0 then e_ok else e_nok), b')

-- the loop of the two reads, which gather a byte bit by bit
unfoldable pub read_bits : Board → ℕ → ℕ → ℕ × Board
unfolding read_bit
read_bits b byte zero = (byte, b)
read_bits b byte (suc left) =
    let (v, b') = read_bit b in read_bits b' (u8 (bit_or (byte * 2) v)) left

-- the pointer is `none` if NULL, else what it points to
unfoldable pub read_byte : Board → Option ℕ → ℕ → ReturnType × Option ℕ × Board
unfolding read_bits write_bit
read_byte b none ack = (e_nok, none, b)
read_byte b (some old) ack = let (v, b') = read_bits b 0 8 in (e_ok, some v, write_bit b' ack)

unfoldable pub read_ack : Board → Option ℕ → ReturnType × Option ℕ × Board
unfolding read_byte
read_ack b out = read_byte b out 0

unfoldable pub read_nack : Board → Option ℕ → ReturnType × Option ℕ × Board
unfolding read_byte
read_nack b out = read_byte b out 1
