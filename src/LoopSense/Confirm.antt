-- ===== src/LoopSense/Confirm.antt =====
-- The hysteresis and the confirmation of APP/loopsense/loopsense.c over many readings.
use smart_parking_system_nti.Prelude.{
  ℕ, suc, ◌+◌, ◌-◌, ◌≤◌, ◌<◌, ◌≡◌, refl, ◌∙◌, sym, ap, subst, ◌⊎◌, List, [], ◌∷◌, length, arith,
}
use smart_parking_system_nti.Lane.{Lane, request_open}
use smart_parking_system_nti.LoopSense.{LoopSense, vote, observe}

-- the loop and its lane after a run of readings, the first one first
unfoldable pub watch : List ℕ → LoopSense → Lane → LoopSense × Lane
watch [] s ln = (s, ln)
watch (raw ∷ raws) s ln = watch raws (observe s ln raw).0 (observe s ln raw).1

-- The loop and its lane agree, and fewer than four readings are counted.
abbrev pub IsInStep : LoopSense → Lane → Type 0
IsInStep s ln =
    (s.confirmed_active ≤ 1) × (s.candidate_count < 4) × (ln.loop_active ≡ s.confirmed_active)

observe-IsInStep :
    (s : LoopSense) (ln : Lane) (raw : ℕ)
    → IsInStep s ln
    → IsInStep (observe s ln raw).0 (observe s ln raw).1
unfolding observe vote request_open
observe-IsInStep s ln raw h = ground arith

-- Whatever the readings, the lane is told exactly the state that the loop has confirmed, which is 0
-- or 1, and fewer than four readings stay counted, if that was so before them.
pub watch-IsInStep :
    (raws : List ℕ) (s : LoopSense) (ln : Lane)
    → IsInStep s ln
    → IsInStep (watch raws s ln).0 (watch raws s ln).1
unfolding watch
watch-IsInStep [] s ln h = h
watch-IsInStep (raw ∷ raws) s ln h =
    watch-IsInStep raws (observe s ln raw).0 (observe s ln raw).1 (observe-IsInStep s ln raw h)

-- a reading that does not speak against the state: up to 600 for a clear loop, from 400 for a
-- covered one
abbrev pub IsQuiet : ℕ → ℕ → Type 0
IsQuiet state raw = ((state ≡ 0) × (raw ≤ 600)) ⊎ ((state ≡ 1) × (400 ≤ raw))

abbrev pub AllQuiet : ℕ → List ℕ → Type 0
AllQuiet state [] = Unit {0}
AllQuiet state (raw ∷ raws) = IsQuiet state raw × AllQuiet state raws

observe_quiet :
    (s : LoopSense) (ln : Lane) (raw state : ℕ)
    → s.confirmed_active ≡ state
    → IsQuiet state raw
    → ((observe s ln raw).0.confirmed_active ≡ state) × ((observe s ln raw).1 ≡ ln)
unfolding observe vote request_open
observe_quiet s ln raw state e h = ground arith

-- Readings that never cross the limit that could switch the loop switch nothing, however many they
-- are: a clear loop stays clear while they are at most 600, a covered one stays covered while they
-- are at least 400, and the lane is not told anything.
pub watch_quiet :
    (raws : List ℕ) (s : LoopSense) (ln : Lane) (state : ℕ)
    → s.confirmed_active ≡ state
    → AllQuiet state raws
    → ((watch raws s ln).0.confirmed_active ≡ state) × ((watch raws s ln).1 ≡ ln)
unfolding watch
watch_quiet [] s ln state e h = (e, refl)
watch_quiet (raw ∷ raws) s ln state e h =
    let first = observe_quiet s ln raw state e h.0 in
    let rest = watch_quiet raws (observe s ln raw).0 (observe s ln raw).1 state first.0 h.1 in
    (rest.0, rest.1 ∙ first.1)

observe_counts :
    (s : LoopSense) (ln : Lane) (raw left : ℕ)
    → s.candidate_count + suc left < 4
    → ((observe s ln raw).0.confirmed_active ≡ s.confirmed_active)
      × ((observe s ln raw).0.candidate_count + left < 4)
      × ((observe s ln raw).1 ≡ ln)
unfolding observe vote request_open
observe_counts s ln raw left h = ground arith

-- Readings too few to make four with those counted already switch nothing, whatever they are.
pub watch_glitch :
    (raws : List ℕ) (s : LoopSense) (ln : Lane)
    → s.candidate_count + length raws < 4
    → ((watch raws s ln).0.confirmed_active ≡ s.confirmed_active) × ((watch raws s ln).1 ≡ ln)
unfolding watch
watch_glitch [] s ln h = (refl, refl)
watch_glitch (raw ∷ raws) s ln h =
    let first = observe_counts s ln raw (length raws) (omega (arith, h)) in
    let rest = watch_glitch raws (observe s ln raw).0 (observe s ln raw).1 first.1 in
    (rest.0 ∙ first.0, rest.1 ∙ first.2)

-- a reading that speaks against the state
abbrev pub IsContrary : ℕ → ℕ → Type 0
IsContrary state raw = ((state ≡ 0) × (600 < raw)) ⊎ ((state ≡ 1) × (raw < 400))

abbrev pub AllContrary : ℕ → List ℕ → Type 0
AllContrary state [] = Unit {0}
AllContrary state (raw ∷ raws) = IsContrary state raw × AllContrary state raws

observe_last :
    (s : LoopSense) (ln : Lane) (raw : ℕ)
    → s.candidate_count ≡ 3
    → IsContrary s.confirmed_active raw
    → ((observe s ln raw).0.confirmed_active ≡ 1 - s.confirmed_active)
      × ((observe s ln raw).1.loop_active ≡ 1 - s.confirmed_active)
unfolding observe vote request_open
observe_last s ln raw n h = ground arith

observe_first :
    (s : LoopSense) (ln : Lane) (raw : ℕ)
    → s.candidate_count < 3
    → IsContrary s.confirmed_active raw
    → ((observe s ln raw).0.confirmed_active ≡ s.confirmed_active)
      × ((observe s ln raw).0.candidate_count ≡ suc s.candidate_count)
unfolding observe vote request_open
observe_first s ln raw n h = ground arith

-- Readings beyond the band that complete four in a row switch the loop and tell the lane: above 600
-- they mark a clear loop as covered, below 400 a covered one as clear.
pub watch_switches :
    (raws : List ℕ) (s : LoopSense) (ln : Lane) (state : ℕ)
    → s.confirmed_active ≡ state
    → s.candidate_count < 4
    → s.candidate_count + length raws ≡ 4
    → AllContrary state raws
    → ((watch raws s ln).0.confirmed_active ≡ 1 - state)
      × ((watch raws s ln).1.loop_active ≡ 1 - state)
unfolding watch
watch_switches [] s ln state e c n h = absurd (omega (arith, c, n))
watch_switches (raw ∷ []) s ln state e c n h =
    let last =
      observe_last s ln raw (omega (arith, n)) (subst (λ x. IsContrary x raw) (sym e) h.0) in
    (last.0 ∙ ap (λ x. 1 - x) e, last.1 ∙ ap (λ x. 1 - x) e)
watch_switches (raw ∷ (next ∷ raws)) s ln state e c n h =
    let first =
      observe_first s ln raw (omega (arith, n)) (subst (λ x. IsContrary x raw) (sym e) h.0) in
    watch_switches (next ∷ raws) (observe s ln raw).0 (observe s ln raw).1 state (first.0 ∙ e)
      (omega (arith, n, first.1)) (omega (arith, n, first.1)) h.1
