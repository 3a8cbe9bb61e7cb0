-- ===== src/Text/Decimal.antt =====
-- Reading decimal text back.
use mathlib.Core.List.{reverse, reverse-cons}
use native.Mathlib.Nat.{pow-suc}
use smart_parking_system_nti.Prelude.{
  ℕ, zero, suc, ◌+◌, ◌-◌, ◌*◌, ◌/◌, ◌^◌, ◌≤◌, ◌<◌, ◌≡◌, refl, ap, ◌∙◌, List, [], ◌∷◌, ◌++◌, arith,
  ◌==◌, length, length-append, Bool-cases, inl, inr,
}
use smart_parking_system_nti.Text.{digits_loop, decimal, four_digits}

-- the number that a text of digits stands for, read from the left
unfoldable pub value_from : ℕ → List ℕ → ℕ
value_from acc [] = acc
value_from acc (d ∷ ds) = value_from (acc * 10 + (d - b'0')) ds

-- units first
low_value : List ℕ → ℕ
low_value [] = 0
low_value (d ∷ ds) = d - b'0' + 10 * low_value ds

fewer_digits : (value room : ℕ) → value < 10 ^ suc room → value / 10 < 10 ^ room
fewer_digits value room h = let e : 10 ^ suc room ≡ 10 ^ room * 10 = pow-suc 10 room in omega arith

low_value-digits_loop :
    (room value : ℕ) → value < 10 ^ room → low_value (digits_loop room value) ≡ value
unfolding digits_loop low_value
low_value-digits_loop zero value h = omega arith
low_value-digits_loop (suc room) value h = elim (Bool-cases (value == 0)) [
  | inl z ↦ ground arith
  | inr p ↦
      rw p (ground (arith, low_value-digits_loop room (value / 10) (fewer_digits value room h)))
]

value_from-append :
    (acc : ℕ) (xs : List ℕ) (d : ℕ)
    → value_from acc (xs ++ (d ∷ [])) ≡ value_from acc xs * 10 + (d - b'0')
unfolding value_from
value_from-append acc [] d = refl
value_from-append acc (x ∷ xs) d = value_from-append (acc * 10 + (x - b'0')) xs d

value_from-reverse : (ds : List ℕ) → value_from 0 (reverse ds) ≡ low_value ds
unfolding value_from low_value
value_from-reverse [] = refl
value_from-reverse (d ∷ ds) =
    let split = value_from-append 0 (reverse ds) d in
    ap (value_from 0) (reverse-cons d ds) ∙ split ∙ omega (arith, value_from-reverse ds)

-- Printing a number that fits the digit array, and reading the text back, gives the number.
pub value_from-decimal :
    (room value : ℕ) → value < 10 ^ room → value_from 0 (decimal room value) ≡ value
unfolding decimal value_from
value_from-decimal room value h = elim (Bool-cases (value == 0)) [
  | inl z ↦ rw z (ground arith)
  | inr p ↦ rw p (value_from-reverse (digits_loop room value) ∙ low_value-digits_loop room value h)
]

length-digits_loop : (room value : ℕ) → length (digits_loop room value) ≤ room
unfolding digits_loop
length-digits_loop zero value = omega arith
length-digits_loop (suc room) value = ground (arith, length-digits_loop room (value / 10))

length-reverse : (xs : List ℕ) → length (reverse xs) ≡ length xs
length-reverse [] = refl
length-reverse (x ∷ xs) =
    ap length (reverse-cons x xs)
    ∙ length-append (reverse xs) (x ∷ [])
    ∙ omega (arith, length-reverse xs)

-- The loop stays inside its digit array, and the text is no longer than the array.
pub length-decimal : (room value : ℕ) → 0 < room → length (decimal room value) ≤ room
unfolding decimal
length-decimal room value h =
    ground (arith, length-reverse (digits_loop room value), length-digits_loop room value)

-- every character is a digit
abbrev pub AllDigits : List ℕ → Type 0
AllDigits [] = Unit {0}
AllDigits (d ∷ ds) = (b'0' ≤ d) × (d ≤ b'9') × AllDigits ds

AllDigits-append : (xs ys : List ℕ) → AllDigits xs → AllDigits ys → AllDigits (xs ++ ys)
AllDigits-append [] ys h k = k
AllDigits-append (x ∷ xs) ys h k = (h.0, h.1, AllDigits-append xs ys h.2 k)

AllDigits-reverse : (xs : List ℕ) → AllDigits xs → AllDigits (reverse xs)
AllDigits-reverse [] h = tt
AllDigits-reverse (x ∷ xs) h =
    rw reverse-cons
      (AllDigits-append (reverse xs) (x ∷ []) (AllDigits-reverse xs h.2) (h.0, h.1, tt))

digits_loop-AllDigits : (room value : ℕ) → AllDigits (digits_loop room value)
unfolding digits_loop
digits_loop-AllDigits zero value = tt
digits_loop-AllDigits (suc room) value = elim (Bool-cases (value == 0)) [
  | inl z ↦ rw z tt
  | inr p ↦ rw p (omega arith, omega arith, digits_loop-AllDigits room (value / 10))
]

pub decimal-AllDigits : (room value : ℕ) → AllDigits (decimal room value)
unfolding decimal
decimal-AllDigits room value = elim (Bool-cases (value == 0)) [
  | inl z ↦ rw z (omega arith, omega arith, tt)
  | inr p ↦ rw p (AllDigits-reverse (digits_loop room value) (digits_loop-AllDigits room value))
]

-- The four characters of a ticket number read back as the number.
pub value_from-four_digits : (id : ℕ) → id < 10000 → value_from 0 (four_digits id) ≡ id
unfolding value_from four_digits
value_from-four_digits id h = omega arith

length-digits_loop_of_lt : (room k value : ℕ) → value < 10 ^ k → length (digits_loop room value) ≤ k
unfolding digits_loop
length-digits_loop_of_lt zero k value h = omega arith
length-digits_loop_of_lt (suc room) zero value h = let z : value ≡ 0 = omega arith in ground arith
length-digits_loop_of_lt (suc room) (suc k) value h =
    ground (arith, length-digits_loop_of_lt room k (value / 10) (fewer_digits value k h))

-- A number of at most `k` digits prints as at most `k` characters.
pub length-decimal_of_lt :
    (room k value : ℕ) → 0 < k → value < 10 ^ k → length (decimal room value) ≤ k
unfolding decimal
length-decimal_of_lt room k value pos h =
    ground (arith, length-reverse (digits_loop room value), length-digits_loop_of_lt room k value h)
