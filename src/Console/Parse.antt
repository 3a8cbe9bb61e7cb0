-- ===== src/Console/Parse.antt =====
-- CONSOLE_ParseUint against the value of a decimal text (APP/console/console.c).
use smart_parking_system_nti.Prelude.{
  ℕ, ◌+◌, ◌-◌, ◌*◌, ◌%◌, ◌<◌, ◌≡◌, ap, true, some, List, [], ◌∷◌, u16, e_ok, arith,
}
use smart_parking_system_nti.Text.Decimal.{value_from, AllDigits}
use smart_parking_system_nti.Console.Words.{parse_loop, parse_uint}

value_from_mod :
    (ds : List ℕ) (a b : ℕ)
    → a % 65536 ≡ b % 65536
    → value_from a ds % 65536 ≡ value_from b ds % 65536
unfolding value_from
value_from_mod [] a b h = h
value_from_mod (d ∷ ds) a b h =
    value_from_mod ds (a * 10 + (d - b'0')) (b * 10 + (d - b'0')) (omega (arith, h))

parse_loop_lem :
    (ds : List ℕ) (acc : ℕ)
    → AllDigits ds
    → acc < 65536
    → parse_loop true acc ds ≡ (true, value_from acc ds % 65536)
unfolding parse_loop value_from
parse_loop_lem [] acc h lt = ap (λ v. (true, v)) (omega (arith, lt))
parse_loop_lem (d ∷ ds) acc h lt =
    let next = acc * 10 + (d - b'0') in
    let rest = parse_loop_lem ds (u16 next) h.2 (omega arith) in
    let same = value_from_mod ds (u16 next) next (omega arith) in ground (arith, rest, same, h)

-- On a text of one digit or more CONSOLE_ParseUint succeeds with the value of the text modulo 2^16,
-- so it is exact below 65536 and takes a longer number for a smaller one.
pub parse_uint_lem :
    (d : ℕ) (ds : List ℕ)
    → AllDigits (d ∷ ds)
    → parse_uint (d ∷ ds) ≡ (e_ok, some (value_from 0 (d ∷ ds) % 65536))
unfolding parse_uint parse_loop value_from
parse_uint_lem d ds h =
    let rest = parse_loop_lem ds (u16 (0 * 10 + (d - b'0'))) h.2 (omega arith) in
    let same = value_from_mod ds (u16 (0 * 10 + (d - b'0'))) (0 * 10 + (d - b'0')) (omega arith) in
    ground (arith, rest, same, h)
