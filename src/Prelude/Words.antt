-- ===== src/Prelude/Words.antt =====
-- Machine words: the wrap of each width, single bits, and statements over a byte checked by
-- evaluating every value.
use Prim.Native.Nat.{ℕ, zero, suc, ◌/◌, ◌%◌, ◌^◌, ◌<◌}
use mathlib.Core.Path.{◌≡◌}
use mathlib.Core.Bool.{Bool, true, ◌&&◌}
use native.Mathlib.Omega.{arith}
use smart_parking_system_nti.Prelude.Tests.{◌==◌, ==_iff}

-- what a cast to `uint8`, `uint16` or `uint32` keeps
abbrev pub u8 : ℕ → ℕ
u8 n = n % 256

abbrev pub u16 : ℕ → ℕ
u16 n = n % 65536

abbrev pub u32 : ℕ → ℕ
u32 n = n % 4294967296

-- bit `i` of a word
abbrev pub bit : ℕ → ℕ → ℕ
bit n i = n / 2 ^ i % 2

-- the test holds of every number below the bound
unfoldable pub all_below : ℕ → (ℕ → Bool) → Bool
all_below zero test = true
all_below (suc bound) test = all_below bound test && test bound

pub all_below_sound :
    (bound : ℕ) (test : ℕ → Bool) (k : ℕ) → all_below bound test ≡ true → k < bound → test k ≡ true
unfolding all_below
all_below_sound (suc bound) test k passed below =
    let earlier = all_below_sound bound test k in ground (arith, earlier)
all_below_sound zero test k passed below = absurd (omega arith)

-- Two functions that agree by evaluation below `n` agree at every `x` below it.
pub agree_below :
    (n : ℕ) (f g : ℕ → ℕ) → all_below n (λ x. f x == g x) ≡ true → (x : ℕ) → x < n → f x ≡ g x
agree_below n f g h x lt = (==_iff (f x) (g x)).0 (all_below_sound n (λ y. f y == g y) x h lt)
