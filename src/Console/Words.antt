-- ===== src/Console/Words.antt =====
-- The words and numbers of a command line (APP/console/console.c).
use smart_parking_system_nti.Prelude.{
  ℕ, ◌+◌, ◌-◌, ◌*◌, Bool, true, false, ◌&&◌, Option, none, some, List, [], ◌∷◌, if◌then◌else◌, leb,
  ◌==◌, u16, ReturnType, e_ok, e_nok,
}

abbrev pub char_upper : ℕ → ℕ
char_upper c = if leb b'a' c && leb c b'z' then c - b'a' + b'A' else c

-- whether a line starts with a word, whatever the case of its letters
unfoldable pub match_word : List ℕ → List ℕ → Bool
match_word [] [] = true
match_word (c ∷ text) [] = c == b' '
match_word [] (p ∷ pattern_rest) = false
match_word (c ∷ text) (p ∷ pattern_rest) =
    let rest = match_word text pattern_rest in if char_upper c == char_upper p then rest else false

-- the second loop of CONSOLE_SkipWord
unfoldable pub skip_spaces : List ℕ → List ℕ
skip_spaces [] = []
skip_spaces (c ∷ text) = let rest = skip_spaces text in if c == b' ' then rest else c ∷ text

unfoldable pub skip_word : List ℕ → List ℕ
unfolding skip_spaces
skip_word [] = []
skip_word (c ∷ text) =
    let rest = skip_word text in if c == b' ' then skip_spaces (c ∷ text) else rest

-- the loop over the digits: whether there was one, and the value
unfoldable pub parse_loop : Bool → ℕ → List ℕ → Bool × ℕ
parse_loop any value [] = (any, value)
parse_loop any value (c ∷ text) =
    let rest = parse_loop true (u16 (value * 10 + (c - b'0'))) text in
    if leb b'0' c && leb c b'9' then rest else (any, value)

-- the status, and what `*Copy_pu16Out` is set to
unfoldable pub parse_uint : List ℕ → ReturnType × Option ℕ
unfolding parse_loop
parse_uint text =
    let (any, value) = parse_loop false 0 text in if any then (e_ok, some value) else (e_nok, none)
