-- ===== src/Text.antt =====
-- Texts as lists of character codes, and the decimal printing loop that ticketing.c, billing.c,
-- console.c, telemetry.c and main.c each write out.
pub mod Decimal
use Prim.Native.Char.{code}
use Prim.Native.String.{String}
use mathlib.Core.List.{reverse}
use smart_parking_system_nti.Prelude.{
  ℕ, zero, suc, ◌+◌, ◌/◌, ◌%◌, List, [], ◌∷◌, if◌then◌else◌, ◌==◌,
}

-- the characters of a literal, without its NUL
abbrev pub codes : String → List ℕ
codes String.[] = []
codes (String.◌∷◌ c s) = code c ∷ codes s

-- The C string that a buffer holds: what stands before the first NUL. A list with no NUL stands
-- for a literal, whose NUL is left out.
unfoldable pub c_string : List ℕ → List ℕ
c_string [] = []
c_string (b ∷ bs) = let rest = c_string bs in if b == 0 then [] else b ∷ rest

-- `while (value > 0) { tmp[count++] = '0' + value % 10; value /= 10; }`: the digits, units first.
-- The fuel is the size of the array that the loop fills.
unfoldable pub digits_loop : ℕ → ℕ → List ℕ
digits_loop zero value = []
digits_loop (suc room) value =
    let rest = digits_loop room (value / 10) in
    if value == 0 then [] else (b'0' + value % 10) ∷ rest

-- `'0'` for zero, else the digits copied back to front
unfoldable pub decimal : ℕ → ℕ → List ℕ
unfolding digits_loop
decimal room value = if value == 0 then b'0' ∷ [] else reverse (digits_loop room value)

-- four digits with leading zeros: TKT_FormatId, BIL_FormatId and MAIN_SendId
unfoldable pub four_digits : ℕ → List ℕ
four_digits id =
    (b'0' + id / 1000 % 10) ∷ (b'0' + id / 100 % 10) ∷ (b'0' + id / 10 % 10) ∷ (b'0' + id % 10) ∷ []
