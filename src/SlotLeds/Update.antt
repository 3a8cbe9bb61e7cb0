-- ===== src/SlotLeds/Update.antt =====
-- What the lamps show after LED_Update (HAL/slotleds/slotleds.c).
use smart_parking_system_nti.Prelude.{
  ℕ, ◌+◌, ◌*◌, ◌/◌, ◌%◌, ◌<◌, ◌&&◌, ◌≡◌, ◌≢◌, refl, ap, ◌∙◌, Bool-cases, inl, inr, List, [], ◌∷◌,
  ◌++◌, ◌==◌, ◌!=◌, u8, bit, e_ok, arith,
}
use smart_parking_system_nti.Dio.{set_bit}
use smart_parking_system_nti.Dio.Pins.{bit-clear_bit, set_bit-byte}
use smart_parking_system_nti.Board.{Board}
use smart_parking_system_nti.ShiftReg.{ShiftReg}
use smart_parking_system_nti.ShiftReg.Chain.{written}
use smart_parking_system_nti.SlotLeds.{SlotLeds, compose, update}

-- the sixteen outputs of the two registers, the near one's lowest, after bytes were clocked in: a
-- byte takes the near register, and what was there moves on to the far one
unfoldable pub clocked : ℕ → List ℕ → ℕ
clocked outputs [] = outputs
clocked outputs (byte ∷ bytes) = clocked ((outputs * 256 + byte) % 65536) bytes

-- Whatever the registers held at first, the outputs that they last let through are those of a word,
-- and the strobe is low, so they keep them.
abbrev pub Shows : Board → ℕ → Type 0
Shows b word = ((first : ℕ) → clocked first b.spi.latched ≡ word % 65536) × (bit b.dio.b.port 4 ≡ 0)

-- what the module believes of the chain
abbrev pub IsDriven : SlotLeds → ShiftReg → Board → Type 0
IsDriven l s b = l.primed ≢ 0 → (s.shadow ≡ l.last) × Shows b l.last

clocked-append :
    (first : ℕ) (bytes : List ℕ) (byte : ℕ)
    → clocked first (bytes ++ (byte ∷ [])) ≡ (clocked first bytes * 256 + byte) % 65536
unfolding clocked
clocked-append first [] byte = refl
clocked-append first (b ∷ bytes) byte = clocked-append ((first * 256 + b) % 65536) bytes byte

two_bytes :
    (before word : ℕ)
    → ((before * 256 + u8 (word / 256)) % 65536 * 256 + u8 word) % 65536 ≡ word % 65536
two_bytes before word = omega arith

written-Shows : (b : Board) (word : ℕ) → b.dio.b.port < 256 → Shows (written b word) word
written-Shows b word byte = (
  λ first.
      let high = u8 (word / 256) in
      clocked-append first (b.spi.shifted ++ (high ∷ [])) (u8 word)
      ∙ ap (λ w. (w * 256 + u8 word) % 65536) (clocked-append first b.spi.shifted high)
      ∙ two_bytes (clocked first b.spi.shifted) word,
  bit-clear_bit (set_bit b.dio.b.port 4) 4 4 ((set_bit-byte b.dio.b.port 4 byte (omega arith)).0)
      (omega arith) (omega arith),
)

-- LED_Update succeeds, and then the sixteen outputs of the two registers are the lamp word of the map
-- and the strobe is low, whether the word was sent now or found sent before, if what the module
-- believed of the chain was true. The output register of port B has eight bits.
pub update_lem :
    (l : SlotLeds) (s : ShiftReg) (b : Board) (map lamps : ℕ)
    → b.dio.b.port < 256
    → IsDriven l s b
    → let (r, l', s', b') = update l s b map lamps in
      (r ≡ e_ok)
      × Shows b' (compose map lamps)
      × (s'.shadow ≡ compose map lamps)
      × (l'.last ≡ compose map lamps)
      × (l'.primed ≢ 0)
unfolding update
update_lem l s b map lamps byte d =
    elim (Bool-cases (l.primed != 0 && compose map lamps == l.last)) [
      | inl same ↦
          let on : l.primed ≢ 0 = ground arith in
          let word : l.last ≡ compose map lamps = ground arith in
          let (shadow, (shown, low)) = d on in
          rw same
            (refl, (λ first. shown first ∙ ap (λ w. w % 65536) word, low), shadow ∙ word, word, on)
      | inr new ↦ rw new (refl, written-Shows b (compose map lamps) byte, refl, refl, ground arith)
    ]
