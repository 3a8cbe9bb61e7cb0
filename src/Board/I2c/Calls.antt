-- ===== src/Board/I2c/Calls.antt =====
-- What a receiver on the lines makes of the calls of MCAL/i2c/i2c.c.
use smart_parking_system_nti.Prelude.{
  ℕ, zero, suc, ◌+◌, ◌*◌, ◌<◌, ◌≤◌, ◌≡◌, refl, sym, ap, subst, ◌∙◌, List, [], ◌∷◌, ◌++◌, bit,
  if◌then◌else◌, ◌==◌, ◌!=◌, false, e_ok, e_nok, arith,
}
use smart_parking_system_nti.Board.{Board}
use smart_parking_system_nti.Board.I2c.{
  scl_low, scl_release, sda_low, sda_release, sda_read, write_bit, write_bits, read_bit, start,
  stop, write, init, line_release, drive,
}
use smart_parking_system_nti.Dio
use smart_parking_system_nti.Dio.{Port, set_bit, clear_bit, on_port}
use smart_parking_system_nti.Dio.Pins.{bit-set_bit, bit-clear_bit, set_bit-byte}
use smart_parking_system_nti.Board.I2c.Lines.{
  Holds, Moves, Answers, scl_low-Moves, scl_release-Moves, sda_low-Moves, sda_release-Moves,
  sda_read_lem, AllZero, level, line-Holds,
}
use smart_parking_system_nti.Board.I2c.Receiver.{
  Receiver, watch, heard, inside, outside, shifted, shifted_byte,
}

-- The receiver has made this of the levels so far, the registers hold its levels, and the device
-- answers.
pub record Hears (b : Board) (r : Receiver) : Type 0 where
  pub heard_all : heard b.wires.levels ≡ r
  pub holds : Holds b.dio.c r.scl r.sda
  pub answers : Answers b

Answers-Moves :
    (b b' : Board) (scl sda : ℕ) (l : List (ℕ × ℕ)) → Moves b b' scl sda l → Answers b → Answers b'
Answers-Moves b b' scl sda l m a = record {
  zeros = subst AllZero (sym m.answers) a.zeros;
  pin_byte = omega (arith, a.pin_byte, m.pins);
  shown = ap (λ n. bit n 1) m.pins ∙ a.shown;
}

watch_still : (r : Receiver) → r.scl ≤ 1 → r.sda ≤ 1 → watch r (r.scl, r.sda) ≡ r
watch_still r c d = ground arith

module _ (b : Board) (r : Receiver) (h : Hears b r) where
  pub scl_low-Hears : Hears (scl_low b) (watch r (0, r.sda))
  unfolding heard
  scl_low-Hears =
      let m = scl_low-Moves b r.scl r.sda h.holds in
      record {
        heard_all =
            ap heard m.levels
            ∙ ap (λ q. watch (watch q (r.scl, r.sda)) (0, r.sda)) h.heard_all
            ∙ ap (λ q. watch q (0, r.sda)) (watch_still r h.holds.scl_level h.holds.sda_level);
        holds = m.lines;
        answers = Answers-Moves _ _ _ _ _ m h.answers;
      }

  pub sda_low-Hears : Hears (sda_low b) (watch r (r.scl, 0))
  unfolding heard
  sda_low-Hears =
      let m = sda_low-Moves b r.scl r.sda h.holds in
      record {
        heard_all =
            ap heard m.levels
            ∙ ap (λ q. watch (watch q (r.scl, r.sda)) (r.scl, 0)) h.heard_all
            ∙ ap (λ q. watch q (r.scl, 0)) (watch_still r h.holds.scl_level h.holds.sda_level);
        holds = m.lines;
        answers = Answers-Moves _ _ _ _ _ m h.answers;
      }

  pub scl_release-Hears : Hears (scl_release b) (watch r (1, r.sda))
  unfolding heard
  scl_release-Hears =
      let m = scl_release-Moves b r.scl r.sda h.holds in
      record {
        heard_all = ap heard m.levels ∙ ap (λ q. watch q (1, r.sda)) h.heard_all;
        holds = m.lines;
        answers = Answers-Moves _ _ _ _ _ m h.answers;
      }

  pub sda_release-Hears : Hears (sda_release b) (watch r (r.scl, 1))
  unfolding heard
  sda_release-Hears =
      let m = sda_release-Moves b r.scl r.sda h.holds in
      record {
        heard_all = ap heard m.levels ∙ ap (λ q. watch q (r.scl, 1)) h.heard_all;
        holds = m.lines;
        answers = Answers-Moves _ _ _ _ _ m h.answers;
      }

  -- a reading gives 0, and nothing moves
  pub sda_read-Hears : ((sda_read b).0 ≡ 0) × Hears (sda_read b).1 r
  sda_read-Hears =
      let (low, answers, lines, levels) = sda_read_lem b r.scl r.sda h.holds h.answers in
      (low, record { heard_all = ap heard levels ∙ h.heard_all; holds = lines; answers = answers })

-- where SCL rises inside a byte, one more bit is shifted in
clock_rise :
    (v shift count : ℕ) (bytes : List ℕ) (frames : List (List ℕ))
    → count < 8
    → watch (inside v shift count bytes frames) (1, v)
      ≡ record (inside v (shift * 2 + v) (count + 1) bytes frames) { scl = 1 }
clock_rise v shift count bytes frames h = let e : (count == 8) ≡ false = ground arith in rw e refl

module _ (bytes : List ℕ) (frames : List (List ℕ)) where
  put_bit :
      (b : Board) (sda shift count v : ℕ)
      → v < 2
      → Hears b (inside sda shift count bytes frames)
      → Hears (if v != 0 then sda_release b else sda_low b) (inside v shift count bytes frames)
  put_bit b sda shift count zero lt h = sda_low-Hears b _ h
  put_bit b sda shift count (suc zero) lt h = sda_release-Hears b _ h
  put_bit b sda shift count (suc (suc v)) lt h = absurd (omega arith)

  write_bit-Hears :
      (b : Board) (sda shift count v : ℕ)
      → v < 2
      → count < 8
      → Hears b (inside sda shift count bytes frames)
      → Hears (write_bit b v) (inside v (shift * 2 + v) (count + 1) bytes frames)
  unfolding write_bit
  write_bit-Hears b sda shift count v lt small h =
      let b1 = if v != 0 then sda_release b else sda_low b in
      let down = put_bit b sda shift count v lt h in
      let up =
        subst (Hears (scl_release b1)) (clock_rise v shift count bytes frames small)
          (scl_release-Hears b1 _ down) in
      scl_low-Hears (scl_release b1) _ up

  write_bits-Hears :
      (left : ℕ) (b : Board) (sda shift count byte : ℕ)
      → left + count ≡ 8
      → Hears b (inside sda shift count bytes frames)
      → (last : ℕ) × Hears
          (write_bits b byte left)
          (inside last (shifted shift byte left) 8 bytes frames)
  unfolding write_bits shifted
  write_bits-Hears zero b sda shift count byte e h =
      let all : count ≡ 8 = omega arith in
      (sda, subst (λ n. Hears b (inside sda shift n bytes frames)) all h)
  write_bits-Hears (suc left) b sda shift count byte e h =
      let v = bit byte left in
      write_bits-Hears left (write_bit b v) v (shift * 2 + v) (count + 1) byte (omega arith)
        (write_bit-Hears b sda shift count v (omega arith) (omega arith) h)

  -- the ninth clock: the answer is read, and the byte is complete
  read_bit-Hears :
      (b : Board) (sda byte : ℕ)
      → Hears b (inside sda byte 8 bytes frames)
      → ((read_bit b).0 ≡ 0) × Hears (read_bit b).1 (inside 1 0 0 (bytes ++ (byte ∷ [])) frames)
  unfolding read_bit
  read_bit-Hears b sda byte h =
      let b1 = sda_release b in
      let up = scl_release-Hears b1 _ (sda_release-Hears b _ h) in
      let (low, read) = sda_read-Hears (scl_release b1) _ up in
      (low, scl_low-Hears (sda_read (scl_release b1)).1 _ read)

  -- I2C_Write: the receiver has one more byte, and the call succeeds.
  pub write-Hears :
      (b : Board) (sda byte : ℕ)
      → byte < 256
      → Hears b (inside sda 0 0 bytes frames)
      → ((write b byte).0 ≡ e_ok)
        × Hears (write b byte).1 (inside 1 0 0 (bytes ++ (byte ∷ [])) frames)
  unfolding write
  write-Hears b sda byte small h =
      let (last, sent) = write_bits-Hears 8 b sda 0 0 byte refl h in
      let whole =
        subst (λ n. Hears (write_bits b byte 8) (inside last n 8 bytes frames))
          (shifted_byte byte small) sent in
      let (low, done) = read_bit-Hears (write_bits b byte 8) last byte whole in
      (ap (λ n. if n == 0 then e_ok else e_nok) low, done)

  -- I2C_Start: a new frame begins.
  pub start-Hears :
      (b : Board) (shift count : ℕ)
      → Hears b (outside shift count bytes frames)
      → Hears (start b).1 (inside 0 0 0 [] frames)
  unfolding start
  start-Hears b shift count h =
      let up = scl_release-Hears _ _ (sda_release-Hears b _ h) in
      scl_low-Hears _ _ (sda_low-Hears _ _ up)

  -- I2C_Stop: the frame is complete.
  pub stop-Hears :
      (b : Board) (sda : ℕ)
      → Hears b (inside sda 0 0 bytes frames)
      → Hears (stop b).1 (outside 0 1 bytes (bytes ∷ frames))
  unfolding stop
  stop-Hears b sda h = sda_release-Hears _ _ (scl_release-Hears _ _ (sda_low-Hears b _ h))

-- I2C_Init from the reset state of the two pins: both lines are let go, and the receiver still waits
-- for its first frame.
pub init-Hears :
    (b : Board)
    → b.wires.levels ≡ []
    → b.dio.c.ddr < 256
    → b.dio.c.port < 256
    → bit b.dio.c.ddr 0 ≡ 0
    → bit b.dio.c.ddr 1 ≡ 0
    → Answers b
    → Hears (init b).1 (outside 0 0 [] [])
unfolding init scl_release sda_release line_release drive Dio.init on_port heard
init-Hears b none_yet ddr port in0 in1 a =
    let c = b.dio.c in
    let c1 : Port = record c { ddr = clear_bit c.ddr 0; port = set_bit c.port 0 } in
    let c2 : Port = record c1 { ddr = clear_bit c1.ddr 1; port = set_bit c1.port 1 } in
    let held : Holds c2 1 1 = ground (
      arith,
      set_bit-byte c.ddr 0,
      set_bit-byte c1.ddr 1,
      set_bit-byte c.port 0,
      set_bit-byte c1.port 1,
      bit-clear_bit c.ddr 0 0,
      bit-clear_bit c1.ddr 1 0,
      bit-clear_bit c1.ddr 1 1,
      bit-set_bit c.port 0 0,
      bit-set_bit c1.port 1 0,
      bit-set_bit c1.port 1 1,
    ) in
    let still : (level (bit c1.ddr 0) (bit c1.port 0) ≡ 1)
        × (level (bit c1.ddr 1) (bit c1.port 1) ≡ 1) =
      ground (arith, bit-clear_bit c.ddr 0 0, bit-clear_bit c.ddr 0 1, bit-set_bit c.port 0 0) in
    let now = line-Holds c2 1 1 held in
    record {
      heard_all = (λ i. heard ((now.0 i, now.1 i) ∷ (still.0 i, still.1 i) ∷ none_yet i));
      holds = held;
      answers = record { zeros = a.zeros; pin_byte = a.pin_byte; shown = a.shown };
    }
