-- ===== src/SevenSeg/Digit.antt =====
-- What the decoder's four pins carry after SEG_Show (HAL/7seg/7seg.c).
use smart_parking_system_nti.Prelude.{
  ℕ, ◌+◌, ◌*◌, ◌/◌, ◌%◌, ◌^◌, suc, u8, ◌<◌, ◌≡◌, ◌≢◌, refl, sym, ap, subst, ◌∙◌, true, false, ◌==◌,
  ◌!=◌, ◌&&◌, ltb, if◌then◌else◌, Bool-cases, inl, inr, all_below, agree_below, ReturnType, e_ok,
  on_ok, arith, bit_and,
}
use smart_parking_system_nti.Dio
use smart_parking_system_nti.Dio.{Dio, set_bit, clear_bit}
use smart_parking_system_nti.SevenSeg.{
  SevenSeg, show, adopt, write_nibble, write_nibble_from, blank_code, max_digit,
}

-- one pin's level in a port register
pin_written : ℕ → ℕ → ℕ → ℕ
unfolding set_bit clear_bit
pin_written port code k =
    if bit_and code (u8 (2 ^ k)) != 0 then set_bit port k else clear_bit port k

nibble_written : ℕ → ℕ → ℕ
unfolding pin_written
nibble_written port code =
    pin_written (pin_written (pin_written (pin_written port code 0) code 1) code 2) code 3

nibble_table :
    all_below 4096 (λ q. nibble_written (q / 16) (q % 16) == q / 256 * 16 + q % 16) ≡ true
unfolding nibble_written all_below
nibble_table = refl

nibble_written_lem :
    (port code : ℕ) → port < 256 → code < 16 → nibble_written port code ≡ port / 16 * 16 + code
nibble_written_lem port code p c =
    let q = port * 16 + code in
    let port_of : q / 16 ≡ port = omega arith in
    let code_of : q % 16 ≡ code = omega arith in
    let at_q =
      agree_below 4096 (λ x. nibble_written (x / 16) (x % 16)) (λ x. x / 256 * 16 + x % 16)
        nibble_table q (omega arith) in
    sym (λ k. nibble_written (port_of k) (code_of k)) ∙ at_q ∙ omega arith

-- the pins after one round of the loop
abbrev with_port : Dio → ℕ → Dio
with_port io port = record io { b = record (io.b) { port = port } }

write_pin_eq :
    (io : Dio) (code k : ℕ)
    → ltb 7 k ≡ false
    → Dio.write_pin io Dio.port_b k
        (if bit_and code (u8 (2 ^ k)) != 0 then Dio.dio_high else Dio.dio_low)
      ≡ (e_ok, with_port io (pin_written io.b.port code k))
unfolding Dio.write_pin pin_written
write_pin_eq io code k h = elim (Bool-cases (bit_and code (u8 (2 ^ k)) != 0)) [
  | inl e ↦ rw (e, h) refl
  | inr e ↦ rw (e, h) refl
]

write_nibble_step :
    (io : Dio) (code left k : ℕ)
    → ltb 7 k ≡ false
    → write_nibble_from io code (suc left) k
      ≡ write_nibble_from (with_port io (pin_written io.b.port code k)) code left (k + 1)
unfolding write_nibble_from
write_nibble_step io code left k h =
    ap (λ r. on_ok r (λ io'. write_nibble_from io' code left (k + 1))) (write_pin_eq io code k h)

write_nibble_eq :
    (io : Dio) (code : ℕ)
    → write_nibble io code ≡ (e_ok, with_port io (nibble_written io.b.port code))
unfolding write_nibble nibble_written
write_nibble_eq io code =
    let p0 = pin_written io.b.port code 0 in
    let p1 = pin_written p0 code 1 in
    let p2 = pin_written p1 code 2 in
    write_nibble_step io code 3 0 refl
    ∙ write_nibble_step (with_port io p0) code 2 1 refl
    ∙ write_nibble_step (with_port io p1) code 1 2 refl
    ∙ write_nibble_step (with_port io p2) code 0 3 refl

-- what the module believes of the pins
abbrev pub IsShown : SevenSeg → Dio → Type 0
IsShown d io = d.primed ≢ 0 → io.b.port % 16 ≡ d.shadow

-- a result that leaves `code` on the pins of a port that was `io`'s
abbrev pub Leaves : ℕ → Dio → ReturnType × SevenSeg × Dio → Type 0
Leaves code io r =
    (r.0 ≡ e_ok)
    × (r.2.b.port % 16 ≡ code)
    × (r.2.b.port / 16 ≡ io.b.port / 16)
    × (r.1.shadow ≡ code)
    × (r.1.primed ≢ 0)

adopt-Leaves :
    (d : SevenSeg) (io : Dio) (code : ℕ)
    → io.b.port < 256
    → code < 16
    → Leaves code io (adopt d code (write_nibble io code))
unfolding adopt
adopt-Leaves d io code p small =
    let pins = nibble_written_lem io.b.port code p small in
    subst (λ r. Leaves code io (adopt d code r)) (sym (write_nibble_eq io code))
      (refl, omega (arith, pins, small), omega (arith, pins, small), refl, ground arith)

-- SEG_Show succeeds and leaves the digit's code on the four pins, or the blank code 15 for a value
-- above 6, whether it wrote it now or found it there; the other pins of the port keep their level.
-- It needs what the module believed of the pins to be true.
pub show_lem :
    (d : SevenSeg) (io : Dio) (value : ℕ)
    → io.b.port < 256
    → IsShown d io
    → Leaves (if ltb 6 value then 15 else value) io (show d io value)
unfolding show
show_lem d io value p shown =
    let code = if ltb max_digit value then blank_code else value in
    let new = adopt-Leaves d io code p (ground arith) in
    elim (Bool-cases (d.primed != 0 && code == d.shadow)) [
      | inl same ↦
          let on : d.primed ≢ 0 = ground arith in
          let word : d.shadow ≡ code = ground arith in
          rw same (refl, shown on ∙ word, refl, word, on)
      | inr e ↦ rw e new
    ]
