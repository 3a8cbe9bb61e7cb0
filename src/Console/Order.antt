-- ===== src/Console/Order.antt =====
-- The order of the digits in the answer to SLOTS? (CONSOLE_Handle_Slots in APP/console/console.c).
use smart_parking_system_nti.Prelude.{
  ℕ, ◌+◌, ◌-◌, ◌*◌, ◌/◌, ◌%◌, ◌<◌, ◌≡◌, refl, sym, ◌∙◌, true, ◌==◌, get_or, bit, all_below,
  agree_below, arith,
}
use smart_parking_system_nti.Console.{slot_digits}

shown : ℕ → ℕ → ℕ
unfolding slot_digits
shown map i = get_or (slot_digits map 6) i 0

wanted : ℕ → ℕ → ℕ
wanted map i = b'0' + bit map (5 - i)

shown_table : all_below 384 (λ q. shown (q / 6) (q % 6) == wanted (q / 6) (q % 6)) ≡ true
unfolding shown wanted all_below slot_digits
shown_table = refl

-- The answer to SLOTS? shows slot 6 first and slot 1 last: digit `i`, counted from 0, is `1` just if
-- slot 6 - `i` is occupied.
pub slot_digits_lem :
    (map i : ℕ) → map < 64 → i < 6 → get_or (slot_digits map 6) i 0 ≡ b'0' + bit map (5 - i)
unfolding shown wanted
slot_digits_lem map i m h =
    let q = map * 6 + i in
    let high : q / 6 ≡ map = omega arith in
    let low : q % 6 ≡ i = omega arith in
    let at_q =
      agree_below 384 (λ x. shown (x / 6) (x % 6)) (λ x. wanted (x / 6) (x % 6)) shown_table q
        (omega arith) in
    sym (λ k. shown (high k) (low k)) ∙ at_q ∙ (λ k. wanted (high k) (low k))
