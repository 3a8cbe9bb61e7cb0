-- ===== src/Checksum/Laws.antt =====
-- The checksum as a receiver of a frame uses it (LIB/checksum/checksum.c).
use smart_parking_system_nti.Prelude.{
  ℕ, ◌+◌, ◌*◌, ◌/◌, ◌%◌, ◌<◌, ◌≡◌, ◌≢◌, refl, ap, ap₂, sym, ◌∙◌, bit_xor, List, [], ◌∷◌, ◌++◌,
  arith, all_below, agree_below, length, ◌==◌, true, ltb, flag, some,
}
use smart_parking_system_nti.Checksum.{xor_loop, xor_checksum}

-- Every pair of bytes is one number below 65536, and is checked by evaluation.
undo_right_table :
    all_below 65536 (λ p. bit_xor (bit_xor (p / 256) (p % 256)) (p % 256) == p / 256) ≡ true
unfolding all_below
undo_right_table = refl

undo_left_table :
    all_below 65536 (λ p. bit_xor (p / 256) (bit_xor (p / 256) (p % 256)) == p % 256) ≡ true
unfolding all_below
undo_left_table = refl

byte_table : all_below 65536 (λ p. flag (ltb (bit_xor (p / 256) (p % 256)) 256) == 1) ≡ true
unfolding all_below
byte_table = refl

module _ (f g : ℕ → ℕ → ℕ) where
  agree_bytes :
      all_below 65536 (λ p. f (p / 256) (p % 256) == g (p / 256) (p % 256)) ≡ true
      → (a b : ℕ) → a < 256
      → b < 256
      → f a b ≡ g a b
  agree_bytes table a b ha hb =
      let p = a * 256 + b in
      let high : p / 256 ≡ a = omega arith in
      let low : p % 256 ≡ b = omega arith in
      let at_p =
        agree_below 65536 (λ q. f (q / 256) (q % 256)) (λ q. g (q / 256) (q % 256)) table p
          (omega arith) in
      sym (ap₂ f high low) ∙ at_p ∙ ap₂ g high low

undo_right : (a b : ℕ) → a < 256 → b < 256 → bit_xor (bit_xor a b) b ≡ a
undo_right = agree_bytes (λ a b. bit_xor (bit_xor a b) b) (λ a b. a) undo_right_table

undo_left : (a b : ℕ) → a < 256 → b < 256 → bit_xor a (bit_xor a b) ≡ b
undo_left = agree_bytes (λ a b. bit_xor a (bit_xor a b)) (λ a b. b) undo_left_table

xor-lt : (a b : ℕ) → a < 256 → b < 256 → bit_xor a b < 256
xor-lt a b ha hb =
    let e = agree_bytes (λ x y. flag (ltb (bit_xor x y) 256)) (λ x y. 1) byte_table a b ha hb in
    ground arith

self_table : all_below 256 (λ a. bit_xor a a == 0) ≡ true
unfolding all_below
self_table = refl

xor_self : (a : ℕ) → a < 256 → bit_xor a a ≡ 0
xor_self = agree_below 256 (λ a. bit_xor a a) (λ a. 0) self_table

abbrev pub AllBytes : List ℕ → Type 0
AllBytes [] = Unit {0}
AllBytes (b ∷ bs) = (b < 256) × AllBytes bs

xor_loop-lt : (acc : ℕ) (bs : List ℕ) → acc < 256 → AllBytes bs → xor_loop acc bs (length bs) < 256
unfolding xor_loop
xor_loop-lt acc [] h v = h
xor_loop-lt acc (b ∷ bs) h v = xor_loop-lt (bit_xor acc b) bs (xor-lt acc b h v.0) v.1

xor_loop-append :
    (acc : ℕ) (xs ys : List ℕ)
    → xor_loop acc (xs ++ ys) (length (xs ++ ys))
      ≡ xor_loop (xor_loop acc xs (length xs)) ys (length ys)
unfolding xor_loop
xor_loop-append acc [] ys = refl
xor_loop-append acc (x ∷ xs) ys = xor_loop-append (bit_xor acc x) xs ys

-- Different running values stay different whatever bytes follow.
xor_loop-injective :
    (a b : ℕ) (bs : List ℕ)
    → a < 256
    → b < 256
    → AllBytes bs
    → xor_loop a bs (length bs) ≡ xor_loop b bs (length bs)
    → a ≡ b
unfolding xor_loop
xor_loop-injective a b [] ha hb v e = e
xor_loop-injective a b (x ∷ bs) ha hb v e =
    let ih =
      xor_loop-injective (bit_xor a x) (bit_xor b x) bs (xor-lt a x ha v.0) (xor-lt b x hb v.0) v.1
        e in
    sym (undo_right a x ha v.0) ∙ ap (λ t. bit_xor t x) ih ∙ undo_right b x hb v.0

abbrev checksum_of : List ℕ → ℕ
checksum_of bs = xor_checksum (some bs) (length bs)

-- A run of bytes followed by its own checksum has checksum 0.
pub checksum_appended :
    (bs : List ℕ)
    → AllBytes bs
    → xor_checksum (some (bs ++ (checksum_of bs ∷ []))) (length (bs ++ (checksum_of bs ∷ []))) ≡ 0
unfolding xor_checksum
checksum_appended bs v =
    let c = checksum_of bs in
    xor_loop-append 0 bs (c ∷ []) ∙ xor_self c (xor_loop-lt 0 bs (omega arith) v)

-- Changing one byte of a run changes its checksum.
pub checksum_detects :
    (before after : List ℕ) (a b : ℕ)
    → AllBytes before
    → AllBytes after
    → a < 256
    → b < 256
    → a ≢ b
    → checksum_of (before ++ (a ∷ after)) ≢ checksum_of (before ++ (b ∷ after))
unfolding xor_checksum
checksum_detects before after a b vb va ha hb ne e =
    let m = checksum_of before in
    let hm = xor_loop-lt 0 before (omega arith) vb in
    let same =
      sym (xor_loop-append 0 before (a ∷ after)) ∙ e ∙ xor_loop-append 0 before (b ∷ after) in
    let joined =
      xor_loop-injective (bit_xor m a) (bit_xor m b) after (xor-lt m a hm ha) (xor-lt m b hm hb) va
        same in
    ne (sym (undo_left m a hm ha) ∙ ap (bit_xor m) joined ∙ undo_left m b hm hb)
