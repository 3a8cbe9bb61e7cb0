-- ===== src/Prelude.antt =====
-- The names that the other modules share: the libraries', passed on, and those of the children.
mod Tests
mod Words
mod Lists
pub use Tests.*
unfoldable pub use Words.*
pub use Lists.*
pub use Prim.Native.Nat.{ℕ, zero, suc, ◌+◌, ◌-◌, ◌*◌, ◌/◌, ◌%◌, ◌^◌, ◌≤◌, ◌<◌}
pub use Prim.Native.Nat.{bit_and, bit_or, bit_xor}
pub use mathlib.Core.Path.{◌≡◌, refl, sym, ap, ap₂, ◌∙◌, subst}
pub use mathlib.Core.Logic.{◌≢◌, ◌↔◌, ◌⊎◌, inl, inr}
pub use mathlib.Core.Bool.{Bool, true, false, not, ◌&&◌, ◌||◌}
pub use mathlib.Core.Option.{Option, none, some}
pub use mathlib.Core.List.{List, [], ◌∷◌, ◌++◌}
pub use native.Mathlib.Omega.{arith}

-- `STD_ReturnType`: `E_OK` and `E_NOK`
pub data ReturnType : Type 0 where
  e_ok e_nok : ReturnType

-- `e == E_OK`
abbrev pub is_ok : ReturnType → Bool
is_ok e_ok = true
is_ok e_nok = false

-- `if (call != E_OK) return E_NOK;` on a state that the call may change
abbrev pub on_ok {ℓ} : {S : Type ℓ} → ReturnType × S → (S → ReturnType × S) → ReturnType × S
on_ok (e_ok, s) rest = rest s
on_ok (e_nok, s) rest = (e_nok, s)
