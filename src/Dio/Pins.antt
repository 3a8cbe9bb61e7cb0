-- ===== src/Dio/Pins.antt =====
-- Single pin writes (DIO_WritePin in MCAL/dio/dio.c).
use smart_parking_system_nti.Prelude.{
  ℕ, ◌+◌, ◌*◌, ◌/◌, ◌%◌, ◌<◌, ◌≡◌, ◌≢◌, refl, sym, ◌∙◌, some, arith, all_below, all_below_sound,
  agree_below, bit, ◌&&◌, if◌then◌else◌, ◌==◌, true, e_ok, flag,
}
use smart_parking_system_nti.Dio.{Port, Dio, set_bit, clear_bit, write_pin, port_of, dio_high}

-- the register with `value` put at one bit
written : ℕ → ℕ → ℕ → ℕ
written reg pin value = if value == dio_high then set_bit reg pin else clear_bit reg pin

-- register, pin and bit as one number below 2^14
set_table :
    all_below 16384 (λ q.
      bit (set_bit (q / 64) (q / 8 % 8)) (q % 8)
      == (if q % 8 == q / 8 % 8 then 1 else bit (q / 64) (q % 8)))
    ≡ true
unfolding all_below set_bit
set_table = refl

clear_table :
    all_below 16384 (λ q.
      bit (clear_bit (q / 64) (q / 8 % 8)) (q % 8)
      == (if q % 8 == q / 8 % 8 then 0 else bit (q / 64) (q % 8)))
    ≡ true
unfolding all_below clear_bit
clear_table = refl

module _ (f g : ℕ → ℕ → ℕ → ℕ) where
  agree_bits :
      all_below 16384 (λ q. f (q / 64) (q / 8 % 8) (q % 8) == g (q / 64) (q / 8 % 8) (q % 8)) ≡ true
      → (reg pin i : ℕ) → reg < 256
      → pin < 8
      → i < 8
      → f reg pin i ≡ g reg pin i
  agree_bits table reg pin i hr hp hi =
      let q = reg * 64 + pin * 8 + i in
      let r_at : q / 64 ≡ reg = omega arith in
      let p_at : q / 8 % 8 ≡ pin = omega arith in
      let i_at : q % 8 ≡ i = omega arith in
      let at_q =
        agree_below 16384 (λ x. f (x / 64) (x / 8 % 8) (x % 8))
          (λ x. g (x / 64) (x / 8 % 8) (x % 8)) table q (omega arith) in
      sym (λ k. f (r_at k) (p_at k) (i_at k)) ∙ at_q ∙ λ k. g (r_at k) (p_at k) (i_at k)

pub bit-set_bit :
    (reg pin i : ℕ)
    → reg < 256
    → pin < 8
    → i < 8
    → bit (set_bit reg pin) i ≡ (if i == pin then 1 else bit reg i)
bit-set_bit reg pin i hr hp hi =
    agree_bits (λ r p j. bit (set_bit r p) j) (λ r p j. if j == p then 1 else bit r j) set_table reg
      pin i hr hp hi

pub bit-clear_bit :
    (reg pin i : ℕ)
    → reg < 256
    → pin < 8
    → i < 8
    → bit (clear_bit reg pin) i ≡ (if i == pin then 0 else bit reg i)
bit-clear_bit reg pin i hr hp hi =
    agree_bits (λ r p j. bit (clear_bit r p) j) (λ r p j. if j == p then 0 else bit r j) clear_table
      reg pin i hr hp hi

byte_table :
    all_below 2048
      (λ q. (set_bit (q / 8) (q % 8) / 256 == 0) && (clear_bit (q / 8) (q % 8) / 256 == 0))
    ≡ true
unfolding all_below set_bit clear_bit
byte_table = refl

-- writing one bit of a byte leaves a byte
pub set_bit-byte :
    (reg pin : ℕ) → reg < 256 → pin < 8 → (set_bit reg pin < 256) × (clear_bit reg pin < 256)
set_bit-byte reg pin hr hp =
    let q = reg * 8 + pin in
    let r_at : q / 8 ≡ reg = omega arith in
    let p_at : q % 8 ≡ pin = omega arith in
    let at_q =
      all_below_sound 2048
        (λ x. (set_bit (x / 8) (x % 8) / 256 == 0) && (clear_bit (x / 8) (x % 8) / 256 == 0)) q
        byte_table (omega arith) in
    let at : ((set_bit reg pin / 256 == 0) && (clear_bit reg pin / 256 == 0)) ≡ true =
      sym (λ k. (set_bit (r_at k) (p_at k) / 256 == 0) && (clear_bit (r_at k) (p_at k) / 256 == 0))
      ∙ at_q in
    ground arith

written_bits :
    (reg pin value i : ℕ)
    → reg < 256
    → pin < 8
    → i < 8
    → bit (written reg pin value) i ≡ (if i == pin then flag (value == dio_high) else bit reg i)
unfolding written
written_bits reg pin value i hr hp hi =
    ground (arith, bit-set_bit reg pin i, bit-clear_bit reg pin i)

-- Writing a pin of an existing port succeeds. In that port's output register the pin then has the
-- level that was asked for and the other pins keep theirs; its direction register, what its pins
-- read and every other port stay as they were.
pub write_pin_lem :
    (d : Dio) (n pin value : ℕ) {p : Port}
    → port_of d n ≡ some p
    → p.port < 256
    → pin < 8
    → let (s, d') = write_pin d n pin value in
      (s ≡ e_ok)
      × ((q : Port) × (port_of d' n ≡ some q)
          × (q.ddr ≡ p.ddr)
          × (q.pin ≡ p.pin)
          × ((i : ℕ)
              → i < 8
              → bit q.port i ≡ (if i == pin then flag (value == dio_high) else bit p.port i)))
      × ((m : ℕ) → m ≢ n → port_of d' m ≡ port_of d m)
unfolding write_pin written port_of
write_pin_lem d n pin value {p} found byte small = (
  ground arith,
  (
    record p { port = written p.port pin value },
    ground arith,
    refl,
    refl,
    λ i hi. written_bits p.port pin value i byte small hi,
  ),
  λ m ne. ground arith,
)
