-- ===== src/Buttons/Debounce.antt =====
-- The debounce of one button over many samples (BTN_Update in HAL/buttons/buttons.c).
use smart_parking_system_nti.Prelude.{
  ℕ, suc, ◌-◌, ◌<◌, ◌≤◌, ◌≡◌, refl, ◌∙◌, List, [], ◌∷◌, length, if◌then◌else◌, ltb, sym, subst,
  arith,
}
use smart_parking_system_nti.Buttons.{Button, ButtonState, same, sample}

-- the button after a run of samples, the first one first
unfoldable pub after : Button → List ButtonState → Button
after b [] = b
after b (s ∷ states) = after (sample b s) states

-- the equal samples that it still takes to change the debounced state
abbrev pub needed : Button → ℕ
needed b = if same b.raw_state b.debounced_state then 6 else 5 - b.counter

sample-needed :
    (b : Button) (s : ButtonState) (left : ℕ)
    → suc left < needed b
    → ((sample b s).debounced_state ≡ b.debounced_state) × (left < needed (sample b s))
unfolding sample
sample-needed b s left h = ground arith

-- Fewer samples than are still needed do not change the debounced state, whatever they are: from a
-- settled state that is any five.
pub after_glitch :
    (states : List ButtonState) (b : Button)
    → length states < needed b
    → (after b states).debounced_state ≡ b.debounced_state
unfolding after
after_glitch [] b h = refl
after_glitch (s ∷ states) b h =
    let first = sample-needed b s (length states) h in
    after_glitch states (sample b s) first.1 ∙ first.0

abbrev pub AllSame : ButtonState → List ButtonState → Type 0
AllSame s [] = Unit {0}
AllSame s (x ∷ states) = (x ≡ s) × AllSame s states

-- the samples of `s` that it takes at most to settle on it
abbrev owed : Button → ButtonState → ℕ
owed b s =
    if same b.raw_state s
    then (if same b.debounced_state s then 0 else if ltb b.counter 5 then 5 - b.counter else 1)
    else 6

owed-sample : (b : Button) (s : ButtonState) → owed (sample b s) s ≤ owed b s - 1
unfolding sample
owed-sample b s = ground arith

settled : (b : Button) (s : ButtonState) → owed b s ≡ 0 → b.debounced_state ≡ s
settled b s h = ground arith

owed-after :
    (states : List ButtonState) (b : Button) (s : ButtonState)
    → AllSame s states
    → owed (after b states) s ≤ owed b s - length states
unfolding after
owed-after [] b s h = omega arith
owed-after (x ∷ states) b s h =
    let rest = owed-after states (sample b x) s h.1 in
    let first : owed (sample b x) s ≤ owed b s - 1 =
      subst (λ y. owed (sample b y) s ≤ owed b s - 1) (sym h.0) (owed-sample b s) in
    omega (arith, rest, first)

-- Six equal samples in a row settle the debounced state, whatever the button showed before.
pub after_settles :
    (states : List ButtonState) (b : Button) (s : ButtonState)
    → AllSame s states
    → 6 ≤ length states
    → (after b states).debounced_state ≡ s
after_settles states b s h six =
    let most : owed b s ≤ 6 = ground arith in
    settled (after b states) s (omega (arith, owed-after states b s h, most))
