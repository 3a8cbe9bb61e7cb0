-- ===== src/Board/I2c/Lines.antt =====
-- The two lines of MCAL/i2c/i2c.c: which levels the four calls that move a line put on them.
use smart_parking_system_nti.Prelude.{
  ℕ, ◌-◌, ◌<◌, ◌≤◌, ◌≡◌, refl, List, [], ◌∷◌, bit, if◌then◌else◌, ◌==◌, true, arith,
}
use smart_parking_system_nti.Dio
use smart_parking_system_nti.Dio.{Port, Dio, set_bit, clear_bit, on_port}
use smart_parking_system_nti.Dio.Pins.{bit-set_bit, bit-clear_bit, set_bit-byte}
use smart_parking_system_nti.Board.{Board}
use smart_parking_system_nti.Board.I2c.{
  drive, line_low, line_release, scl_low, scl_release, sda_low, sda_release, answered, sda_read,
  rest_of,
}

-- The registers of port C put these levels on the lines: a line is pulled low by an output, or let
-- go with its pull-up on.
pub record Holds (p : Port) (scl sda : ℕ) : Type 0 where
  pub ddr_byte : p.ddr < 256
  pub port_byte : p.port < 256
  pub scl_level : scl ≤ 1
  pub sda_level : sda ≤ 1
  pub scl_ddr : bit p.ddr 0 ≡ 1 - scl
  pub scl_port : bit p.port 0 ≡ scl
  pub sda_ddr : bit p.ddr 1 ≡ 1 - sda
  pub sda_port : bit p.port 1 ≡ sda

-- what a call does to the board: the lines as they are then, and the levels seen on the way
pub record Moves (b b' : Board) (scl sda : ℕ) (seen : List (ℕ × ℕ)) : Type 0 where
  pub lines : Holds b'.dio.c scl sda
  pub levels : b'.wires.levels ≡ seen
  pub answers : b'.wires.answers ≡ b.wires.answers
  pub pins : b'.dio.c.pin ≡ b.dio.c.pin

-- the level of a line from its two bits
abbrev pub level : ℕ → ℕ → ℕ
level ddr port = if ddr == 1 then port else 1

low_lines :
    (p : Port) (scl sda : ℕ)
    → Holds p scl sda
    → Holds (record p { ddr = set_bit p.ddr 0; port = clear_bit p.port 0 }) 0 sda
      × Holds (record p { ddr = set_bit p.ddr 1; port = clear_bit p.port 1 }) scl 0
low_lines p scl sda h = ground (
  arith,
  set_bit-byte p.ddr 0,
  set_bit-byte p.ddr 1,
  set_bit-byte p.port 0,
  set_bit-byte p.port 1,
  bit-set_bit p.ddr 0 0,
  bit-set_bit p.ddr 0 1,
  bit-set_bit p.ddr 1 0,
  bit-set_bit p.ddr 1 1,
  bit-clear_bit p.port 0 0,
  bit-clear_bit p.port 0 1,
  bit-clear_bit p.port 1 0,
  bit-clear_bit p.port 1 1,
)

release_lines :
    (p : Port) (scl sda : ℕ)
    → Holds p scl sda
    → Holds (record p { ddr = clear_bit p.ddr 0; port = set_bit p.port 0 }) 1 sda
      × Holds (record p { ddr = clear_bit p.ddr 1; port = set_bit p.port 1 }) scl 1
release_lines p scl sda h = ground (
  arith,
  set_bit-byte p.ddr 0,
  set_bit-byte p.ddr 1,
  set_bit-byte p.port 0,
  set_bit-byte p.port 1,
  bit-clear_bit p.ddr 0 0,
  bit-clear_bit p.ddr 0 1,
  bit-clear_bit p.ddr 1 0,
  bit-clear_bit p.ddr 1 1,
  bit-set_bit p.port 0 0,
  bit-set_bit p.port 0 1,
  bit-set_bit p.port 1 0,
  bit-set_bit p.port 1 1,
)

-- the levels that the registers make
pub line-Holds :
    (p : Port) (scl sda : ℕ)
    → Holds p scl sda
    → (level (bit p.ddr 0) (bit p.port 0) ≡ scl) × (level (bit p.ddr 1) (bit p.port 1) ≡ sda)
line-Holds p scl sda h = ground arith

-- half way down, when the pin is an output that still holds its old level
half_low :
    (p : Port) (scl sda : ℕ)
    → Holds p scl sda
    → (level (bit (set_bit p.ddr 0) 0) (bit p.port 0) ≡ scl)
      × (level (bit (set_bit p.ddr 0) 1) (bit p.port 1) ≡ sda)
      × (level (bit (set_bit p.ddr 1) 0) (bit p.port 0) ≡ scl)
      × (level (bit (set_bit p.ddr 1) 1) (bit p.port 1) ≡ sda)
half_low p scl sda h = ground (
  arith,
  bit-set_bit p.ddr 0 0,
  bit-set_bit p.ddr 0 1,
  bit-set_bit p.ddr 1 0,
  bit-set_bit p.ddr 1 1,
)

module _ (b : Board) (scl sda : ℕ) (h : Holds b.dio.c scl sda) where
  pub scl_low-Moves : Moves b (scl_low b) 0 sda ((0, sda) ∷ (scl, sda) ∷ b.wires.levels)
  unfolding scl_low line_low drive Dio.init Dio.write_pin on_port
  scl_low-Moves =
      let p = b.dio.c in
      let low = (low_lines p scl sda h).0 in
      let half = half_low p scl sda h in
      let now =
        line-Holds (record p { ddr = set_bit p.ddr 0; port = clear_bit p.port 0 }) 0 sda low in
      record {
        lines = low;
        levels = λ i. (now.0 i, now.1 i) ∷ (half.0 i, half.1 i) ∷ b.wires.levels;
        answers = refl;
        pins = refl;
      }

  pub sda_low-Moves : Moves b (sda_low b) scl 0 ((scl, 0) ∷ (scl, sda) ∷ b.wires.levels)
  unfolding sda_low line_low drive Dio.init Dio.write_pin on_port
  sda_low-Moves =
      let p = b.dio.c in
      let low = (low_lines p scl sda h).1 in
      let half = half_low p scl sda h in
      let now =
        line-Holds (record p { ddr = set_bit p.ddr 1; port = clear_bit p.port 1 }) scl 0 low in
      record {
        lines = low;
        levels = λ i. (now.0 i, now.1 i) ∷ (half.2 i, half.3 i) ∷ b.wires.levels;
        answers = refl;
        pins = refl;
      }

  pub scl_release-Moves : Moves b (scl_release b) 1 sda ((1, sda) ∷ b.wires.levels)
  unfolding scl_release line_release drive Dio.init on_port
  scl_release-Moves =
      let p = b.dio.c in
      let up = (release_lines p scl sda h).0 in
      let now =
        line-Holds (record p { ddr = clear_bit p.ddr 0; port = set_bit p.port 0 }) 1 sda up in
      record {
        lines = up;
        levels = λ i. (now.0 i, now.1 i) ∷ b.wires.levels;
        answers = refl;
        pins = refl;
      }

  pub sda_release-Moves : Moves b (sda_release b) scl 1 ((scl, 1) ∷ b.wires.levels)
  unfolding sda_release line_release drive Dio.init on_port
  sda_release-Moves =
      let p = b.dio.c in
      let up = (release_lines p scl sda h).1 in
      let now =
        line-Holds (record p { ddr = clear_bit p.ddr 1; port = set_bit p.port 1 }) scl 1 up in
      record {
        lines = up;
        levels = λ i. (now.0 i, now.1 i) ∷ b.wires.levels;
        answers = refl;
        pins = refl;
      }

-- the device at the far end answers every byte: what SDA will show while it is let go is 0
abbrev pub AllZero : List ℕ → Type 0
AllZero [] = Unit
AllZero (a ∷ answers) = (a ≡ 0) × AllZero answers

pub record Answers (b : Board) : Type 0 where
  pub zeros : AllZero b.wires.answers
  pub pin_byte : b.dio.c.pin < 256
  pub shown : bit b.dio.c.pin 1 ≡ 0

answered-Answers :
    (io : Dio) (answers : List ℕ)
    → AllZero answers
    → io.c.pin < 256
    → bit io.c.pin 1 ≡ 0
    → ((answered io answers).c.pin < 256)
      × (bit (answered io answers).c.pin 1 ≡ 0)
      × AllZero (rest_of answers)
      × ((answered io answers).c.ddr ≡ io.c.ddr)
      × ((answered io answers).c.port ≡ io.c.port)
unfolding answered
answered-Answers io [] z byte low = (byte, low, tt, refl, refl)
answered-Answers io (a ∷ answers) (zero_now, later) byte low =
    let is_low : (a == 0) ≡ true = ground arith in
    rw is_low (
      (set_bit-byte io.c.pin 1 byte (omega arith)).1,
      bit-clear_bit io.c.pin 1 1 byte (omega arith) (omega arith),
      later,
      refl,
      refl,
    )

-- A reading of SDA gives 0 and leaves the lines alone.
pub sda_read_lem :
    (b : Board) (scl sda : ℕ)
    → Holds b.dio.c scl sda
    → Answers b
    → ((sda_read b).0 ≡ 0)
      × Answers (sda_read b).1
      × Holds (sda_read b).1.dio.c scl sda
      × ((sda_read b).1.wires.levels ≡ b.wires.levels)
unfolding sda_read Dio.read_pin Dio.port_of
sda_read_lem b scl sda h a =
    let (byte, low, later, ddr, port) =
      answered-Answers b.dio b.wires.answers a.zeros a.pin_byte a.shown in
    (low, record { zeros = later; pin_byte = byte; shown = low }, ground arith, refl)
