-- ===== src/Display/Wire.antt =====
-- The display on the bus of MCAL/i2c/i2c.c: a receiver on the two lines hears the frames that
-- HAL/lcd/lcd_i2c.c sends. What the display does with a frame is a parameter.
use smart_parking_system_nti.Prelude.{
  ℕ, ◌+◌, ◌%◌, ◌<◌, ◌≡◌, refl, sym, ap, subst, ◌∙◌, List, [], ◌∷◌, ReturnType, e_ok, on_ok, arith,
}
use smart_parking_system_nti.Board.{Board}
use smart_parking_system_nti.Board.I2c
use smart_parking_system_nti.Board.I2c.Receiver.{Receiver, heard, outside}
use smart_parking_system_nti.Board.I2c.Calls.{Hears, start-Hears, write-Hears, stop-Hears}
use smart_parking_system_nti.Lcd.{transaction, send_command, write_char}
use smart_parking_system_nti.Lcd.Screen.{Memory, jump, put, Drives, on_ok_of}
use smart_parking_system_nti.Display.{i2c_bus}

-- the frames that a receiver has heard on the lines, newest first
abbrev pub frames_of : Board → List (List ℕ)
frames_of b = (heard b.wires.levels).frames

-- Both lines are high and no frame is open, the registers of the port agree with that, and the
-- device at the far end answers.
pub record IsReady (b : Board) : Type 0 where
  pub shift : ℕ
  pub count : ℕ
  pub bytes : List ℕ
  pub frames : List (List ℕ)
  pub hears : Hears b (outside shift count bytes frames)

-- a step of a transaction, from one receiver to the next
then-Hears :
    (r : ReturnType × Board) (next : Board → ReturnType × Board) (q : Receiver)
    → r.0 ≡ e_ok
    → ((next r.1).0 ≡ e_ok) × Hears (next r.1).1 q
    → ((on_ok r next).0 ≡ e_ok) × Hears (on_ok r next).1 q
then-Hears r next q ok done =
    subst (λ t. (t.0 ≡ e_ok) × Hears t.1 q) (sym (on_ok_of r next ok)) done

start-ok : (b : Board) → (I2c.start b).0 ≡ e_ok
unfolding I2c.start
start-ok b = refl

stop-ok : (b : Board) → (I2c.stop b).0 ≡ e_ok
unfolding I2c.stop
stop-ok b = refl

-- a frame of three bytes, of which the first is the display's address with the bit for writing
abbrev pub frame : ℕ → ℕ → List ℕ
frame control byte = 124 ∷ control ∷ byte ∷ []

transaction-Hears :
    (b : Board) (shift count : ℕ) (bytes : List ℕ) (frames : List (List ℕ)) (control byte : ℕ)
    → control < 256
    → byte < 256
    → Hears b (outside shift count bytes frames)
    → let r = transaction i2c_bus b control byte in
      (r.0 ≡ e_ok) × Hears r.1 (outside 0 1 (frame control byte) (frame control byte ∷ frames))
unfolding transaction
transaction-Hears b shift count bytes frames control byte hc hb h =
    let end = outside 0 1 (frame control byte) (frame control byte ∷ frames) in
    let s1 = I2c.start b in
    let begun = start-Hears bytes frames b shift count h in
    let s2 = I2c.write s1.1 124 in
    let (ok2, h2) = write-Hears [] frames s1.1 0 124 (omega arith) begun in
    let s3 = I2c.write s2.1 control in
    let (ok3, h3) = write-Hears (124 ∷ []) frames s2.1 1 control hc h2 in
    let s4 = I2c.write s3.1 byte in
    let (ok4, h4) = write-Hears (124 ∷ control ∷ []) frames s3.1 1 byte hb h3 in
    let ended = stop-Hears (frame control byte) frames s4.1 1 h4 in
    let after4 = then-Hears s4 I2c.stop end ok4 (stop-ok s4.1, ended) in
    let after3 = then-Hears s3 (λ q. on_ok (I2c.write q byte) I2c.stop) end ok3 after4 in
    let after2 =
      then-Hears s2 (λ q. on_ok (I2c.write q control) λ q'. on_ok (I2c.write q' byte) I2c.stop) end
        ok2 after3 in
    then-Hears s1
      (λ q.
        on_ok (I2c.write q 124)
          λ q1. on_ok (I2c.write q1 control) λ q2. on_ok (I2c.write q2 byte) I2c.stop)
      end (start-ok b) after2

-- On a ready bus a transaction of HAL/lcd/lcd_i2c.c succeeds and leaves the bus ready, and a receiver
-- that follows the rules of the I2C bus on the two lines has heard exactly one more frame: the
-- address of the display, the control byte and the byte, both of which have eight bits.
pub transaction_lem :
    (b : Board) (control byte : ℕ)
    → control < 256
    → byte < 256
    → IsReady b
    → let (r, b') = transaction i2c_bus b control byte in
      (r ≡ e_ok) × (frames_of b' ≡ frame control byte ∷ frames_of b) × IsReady b'
transaction_lem b control byte hc hb ready =
    let (ok, h) =
      transaction-Hears b ready.shift ready.count ready.bytes ready.frames control byte hc hb
        ready.hears in
    (
      ok,
      ap (λ r. r.frames) h.heard_all
          ∙ ap (λ r. frame control byte ∷ r.frames) (sym ready.hears.heard_all),
      record {
        shift = 0;
        count = 1;
        bytes = frame control byte;
        frames = frame control byte ∷ ready.frames;
        hears = h;
      },
    )

-- what the display does with a frame, as its controller documents it: control byte 0 brings a
-- command, and 64 a character
pub record Obeys (execute : Memory → List ℕ → Memory) : Type 0 where
  pub moves : (m : Memory) (a : ℕ) → a < 80 → a % 64 < 16 → execute m (frame 0 (128 + a)) ≡ jump m a
  pub writes :
      (m : Memory) (c : ℕ) → m.address < 80 → m.address % 64 < 16 → execute m (frame 64 c) ≡ put m c

module _ (execute : Memory → List ℕ → Memory) (first : Memory) where
  -- the display after the frames, of which the newest stands first
  pub executed : List (List ℕ) → Memory
  executed [] = first
  executed (f ∷ fs) = execute (executed fs) f

  -- what the display shows that was switched on showing `first`
  abbrev pub shown_on : Board → Memory
  shown_on b = executed (frames_of b)

  executed_frame :
      (b b' : Board) (f : List ℕ)
      → frames_of b' ≡ f ∷ frames_of b
      → shown_on b' ≡ execute (shown_on b) f
  unfolding executed
  executed_frame b b' f e = ap executed e

  -- Through MCAL/i2c/i2c.c, whatever a display that obeys the frames shows is what the transactions of
  -- HAL/lcd/lcd_i2c.c ask for, as the theorems on LCD_Paint need.
  pub i2c_bus-Drives : Obeys execute → Drives i2c_bus shown_on IsReady
  unfolding send_command write_char
  i2c_bus-Drives obeys = record {
    command = λ b a ready small column.
        let (ok, heard_one, ready') =
          transaction_lem b 0 (128 + a) (omega arith) (omega arith) ready in
        (
          ok,
          executed_frame b (transaction i2c_bus b 0 (128 + a)).1 (frame 0 (128 + a)) heard_one
              ∙ obeys.moves (shown_on b) a small column,
          ready',
        );
    char = λ b c ready byte small column.
        let (ok, heard_one, ready') = transaction_lem b 64 c (omega arith) byte ready in
        (
          ok,
          executed_frame b (transaction i2c_bus b 64 c).1 (frame 64 c) heard_one
              ∙ obeys.writes (shown_on b) c small column,
          ready',
        );
  }
