-- ===== src/Slots/Debounce.antt =====
-- The debounce of HAL/slots/slots.c over a history of samples.
use smart_parking_system_nti.Prelude.{
  ℕ, zero, suc, ◌≤◌, ◌<◌, ◌≡◌, ◌≢◌, refl, subst, ◌∙◌, List, [], ◌∷◌, arith, ◌⊎◌, inl, inr,
}
use smart_parking_system_nti.Slots.{Slots, boot, sample, get_map}

-- the state after a history of samples, newest first
unfoldable pub after : List ℕ → Slots
after [] = boot
after (raw ∷ earlier) = sample (after earlier) raw

-- the newest `n` samples are all `v`
abbrev pub Newest : ℕ → ℕ → List ℕ → Type 0
Newest zero v h = Unit {0}
Newest (suc n) v [] = ⊥
Newest (suc n) v (raw ∷ h) = (raw ≡ v) × Newest n v h

record IsTimed (s : Slots) (h : List ℕ) : Type 0 where
  bounded : s.sample_count ≤ 5
  settled : s.sample_count ≡ 5 → s.published_map ≡ s.candidate
  agreed : Newest s.sample_count s.candidate h

boot-IsTimed : IsTimed boot []
unfolding boot
boot-IsTimed = record { bounded = omega arith; settled = λ e. refl; agreed = tt }

Newest-le : (m n v : ℕ) (h : List ℕ) → m ≤ n → Newest n v h → Newest m v h
Newest-le zero n v h le new = tt
Newest-le (suc m) zero v h le new = absurd (omega arith)
Newest-le (suc m) (suc n) v [] le new = new
Newest-le (suc m) (suc n) v (raw ∷ h) le new = (new.0, Newest-le m n v h (omega arith) new.1)

Newest-cons :
    (m n v raw : ℕ) (h : List ℕ) → raw ≡ v → m ≤ suc n → Newest n v h → Newest m v (raw ∷ h)
Newest-cons zero n v raw h e le new = tt
Newest-cons (suc m) n v raw h e le new = (e, Newest-le m n v h (omega arith) new)

-- A sample restarts the count on a new candidate, or adds at most one to the count of the old.
sample_cases :
    (s : Slots) (raw : ℕ)
    → s.sample_count ≤ 5
    → (((sample s raw).candidate ≡ raw) × ((sample s raw).sample_count ≡ 1))
      ⊎ ((raw ≡ s.candidate)
          × ((sample s raw).candidate ≡ s.candidate)
          × ((sample s raw).sample_count ≤ suc s.sample_count))
unfolding sample
sample_cases s raw h = ground arith

sample_agreed :
    (s : Slots) (h : List ℕ) (raw : ℕ)
    → IsTimed s h
    → Newest (sample s raw).sample_count (sample s raw).candidate (raw ∷ h)
sample_agreed s h raw v = elim (sample_cases s raw v.bounded) [
  | inl (c, n) ↦ rw (c, n) (refl, tt)
  | inr (e, c, n) ↦ rw c (Newest-cons _ s.sample_count s.candidate raw h e n v.agreed)
]

sample_bounded : (s : Slots) (raw : ℕ) → s.sample_count ≤ 5 → (sample s raw).sample_count ≤ 5
unfolding sample
sample_bounded s raw h = ground arith

sample_settled :
    (s : Slots) (raw : ℕ)
    → s.sample_count ≤ 5
    → (s.sample_count ≡ 5 → s.published_map ≡ s.candidate)
    → (sample s raw).sample_count ≡ 5
    → (sample s raw).published_map ≡ (sample s raw).candidate
unfolding sample
sample_settled s raw h k = ground arith

after-IsTimed : (h : List ℕ) → IsTimed (after h) h
unfolding after
after-IsTimed [] = boot-IsTimed
after-IsTimed (raw ∷ h) =
    let v = after-IsTimed h in
    let s = after h in
    record {
      bounded = sample_bounded s raw v.bounded;
      settled = sample_settled s raw v.bounded v.settled;
      agreed = sample_agreed s h raw v;
    }

-- A sample that moves the published map leaves the count at five on the value published.
sample_publishes :
    (s : Slots) (raw : ℕ)
    → s.sample_count ≤ 5
    → (sample s raw).published_map ≢ s.published_map
    → ((sample s raw).sample_count ≡ 5) × ((sample s raw).candidate ≡ (sample s raw).published_map)
unfolding sample
sample_publishes s raw h ne = ground arith

-- Whatever the samples since boot, the published map moves only to a value that the newest five
-- samples all show.
pub published_after_five :
    (h : List ℕ) (raw : ℕ)
    → get_map (after (raw ∷ h)) ≢ get_map (after h)
    → Newest 5 (get_map (after (raw ∷ h))) (raw ∷ h)
unfolding after get_map
published_after_five h raw ne =
    let v = after-IsTimed h in
    let (five, same) = sample_publishes (after h) raw v.bounded ne in
    let last = rw five at (sample_agreed (after h) h raw v) in
    subst (λ k. Newest 5 k (raw ∷ h)) same last

-- what `k` equal samples in a row have reached
abbrev Reached : ℕ → ℕ → Slots → Type 0
Reached k v s = (s.candidate ≡ v) × (k ≤ s.sample_count)

sample_first : (s : Slots) (v : ℕ) → s.sample_count ≤ 5 → Reached 1 v (sample s v)
unfolding sample
sample_first s v h = ground arith

sample_more :
    (s : Slots) (v k : ℕ)
    → s.sample_count ≤ 5
    → k < 5
    → Reached k v s
    → Reached (suc k) v (sample s v)
unfolding sample
sample_more s v k h lt r = ground arith

module _ (h : List ℕ) (v : ℕ) where
  one : Reached 1 v (after (v ∷ h))
  unfolding after
  one = sample_first (after h) v (after-IsTimed h).bounded

  more : (k : ℕ) (g : List ℕ) → k < 5 → Reached k v (after g) → Reached (suc k) v (after (v ∷ g))
  unfolding after
  more k g lt r = sample_more (after g) v k (after-IsTimed g).bounded lt r

  five : Reached 5 v (after (v ∷ v ∷ v ∷ v ∷ v ∷ h))
  five = more 4 (v ∷ v ∷ v ∷ v ∷ h) (omega arith) (
      more 3 (v ∷ v ∷ v ∷ h) (omega arith)
        (more 2 (v ∷ v ∷ h) (omega arith) (more 1 (v ∷ h) (omega arith) one)))

-- Five equal samples in a row publish their value, whatever came before.
pub five_samples_publish : (h : List ℕ) (v : ℕ) → get_map (after (v ∷ v ∷ v ∷ v ∷ v ∷ h)) ≡ v
unfolding get_map
five_samples_publish h v =
    let t = after-IsTimed (v ∷ v ∷ v ∷ v ∷ v ∷ h) in
    let (c, n) = five h v in t.settled (omega (arith, t.bounded)) ∙ c
