-- ===== src/Buzzer/Beep.antt =====
-- A whole beep: BUZ_Beep and the calls of BUZ_Update after it (HAL/buzzer/buzzer.c).
use native.Mathlib.Decide.{dec_lt}
use smart_parking_system_nti.Prelude.{
  ℕ, zero, suc, ◌+◌, ◌*◌, ◌-◌, ◌/◌, ◌%◌, ◌<◌, ◌≤◌, ◌≡◌, refl, sym, ap, subst, ◌∙◌, ◌==◌,
  if◌then◌else◌, e_ok, arith,
}
use smart_parking_system_nti.Board.{Board}
use smart_parking_system_nti.Board.Tone
use smart_parking_system_nti.Board.Tone.{tone_idle, tone_running}
use smart_parking_system_nti.Buzzer.{Buzzer, turn_on, turn_off, beep, phase_end, update}

-- `n` calls of BUZ_Update, whose status nobody reads
pub updates : ℕ → Buzzer × Board → Buzzer × Board
updates zero s = s
updates (suc n) s = let (z, b) = updates n s in let (r, z', b') = update z b in (z', b')

-- the tone is on in every other phase, the first one among them
abbrev pub is_loud : ℕ → ℕ
is_loud phase = (phase + 1) % 2

-- `r` calls into a phase of a beep of `times` tones, each phase `period` calls long
pub record Beeps (times period phase r : ℕ) (s : Buzzer × Board) : Type 0 where
  pub on_pin : s.0.pin ≡ 7
  pub active : s.0.active ≡ 1
  pub state : s.0.state ≡ is_loud phase
  pub counted : s.0.beep_count ≡ (phase + 1) / 2
  pub target : s.0.target_beep_count ≡ times
  pub ticks : s.0.tick_count ≡ r
  pub period_is : s.0.ticks_per_phase ≡ period
  pub tone : s.1.timer2.tccr2 ≡ (if is_loud phase == 1 then tone_running else tone_idle)

-- the sequencer rests and the tone is off
abbrev pub IsSilent : Buzzer × Board → Type 0
IsSilent s = (s.0.active ≡ 0) × (s.1.timer2.tccr2 ≡ tone_idle)

module _ (times period : ℕ) (few : times < 256) (long : period < 65536) where
  Beeps-on :
      (phase r n : ℕ) (s : Buzzer × Board)
      → suc r < period
      → Beeps times period phase r (updates n s)
      → Beeps times period phase (suc r) (updates (suc n) s)
  unfolding updates update
  Beeps-on phase r n s lt h = ground arith

  Beeps-next :
      (phase r n : ℕ) (s : Buzzer × Board)
      → suc r ≡ period
      → suc phase < times * 2
      → Beeps times period phase r (updates n s)
      → Beeps times period (suc phase) 0 (updates (suc n) s)
  unfolding updates update phase_end turn_on turn_off Tone.start Tone.stop
  Beeps-next phase r n s end more h = ground arith

  Beeps-last :
      (phase r n : ℕ) (s : Buzzer × Board)
      → suc r ≡ period
      → suc phase ≡ times * 2
      → Beeps times period phase r (updates n s)
      → IsSilent (updates (suc n) s)
  unfolding updates update phase_end turn_on turn_off Tone.start Tone.stop
  Beeps-last phase r n s end last h = ground arith

  module _ (s : Buzzer × Board) (some_period : 0 < period) (start : Beeps times period 0 0 s) where
    Beeps-at :
        (n phase r : ℕ)
        → n ≡ phase * period + r
        → phase < times * 2
        → r < period
        → Beeps times period phase r (updates n s)
    unfolding updates
    Beeps-at zero zero zero e more lt = start
    Beeps-at zero zero (suc r) e more lt = absurd (omega arith)
    Beeps-at zero (suc phase) r e more lt = absurd (grind arith)
    Beeps-at (suc n) phase (suc r) e more lt =
        Beeps-on phase r n s lt (Beeps-at n phase r (omega arith) more (omega arith))
    Beeps-at (suc n) zero zero e more lt = absurd (omega arith)
    Beeps-at (suc n) (suc phase) zero e more lt =
        let before : n ≡ phase * period + (period - 1) = grind arith in
        Beeps-next phase (period - 1) n s (omega arith) more
          (Beeps-at n phase (period - 1) before (omega arith) (omega arith))

    IsSilent-out : (last : ℕ) → times * 2 ≡ suc last → IsSilent (updates (times * 2 * period) s)
    IsSilent-out last phases =
        let n = last * period + (period - 1) in
        let end : suc n ≡ suc last * period = grind arith in
        let all : suc n ≡ times * 2 * period = end ∙ sym (ap (λ t. t * period) phases) in
        subst (λ k. IsSilent (updates k s)) all
          (Beeps-last last (period - 1) n s (omega arith) (sym phases)
            (Beeps-at n last (period - 1) refl (omega arith) (omega arith)))

IsSilent-step : (n : ℕ) (s : Buzzer × Board) → IsSilent (updates n s) → IsSilent (updates (suc n) s)
unfolding updates update
IsSilent-step n s h = ground arith

IsSilent-after :
    (k n : ℕ) (s : Buzzer × Board) → n ≤ k → IsSilent (updates n s) → IsSilent (updates k s)
IsSilent-after zero n s le h =
    let first : n ≡ 0 = omega arith in subst (λ j. IsSilent (updates j s)) first h
IsSilent-after (suc k) n s le h = elim (dec_lt k n) [
  | yes last ↦ let now : n ≡ suc k = omega arith in subst (λ j. IsSilent (updates j s)) now h
  | no earlier ↦ IsSilent-step k s (IsSilent-after k n s (omega arith) h)
]

beep-Beeps :
    (z : Buzzer) (b : Board) (times ms : ℕ)
    → z.active ≡ 0
    → z.pin ≡ 7
    → 0 < times
    → 0 < ms
    → ms % 10 ≡ 0
    → let (r, z', b') = beep z b 7 times ms in (r ≡ e_ok) × Beeps times (ms / 10) 0 0 (z', b')
unfolding beep turn_on Tone.start
beep-Beeps z b times ms rests pin some_tone some_ms whole = ground arith

-- With the sequencer at rest on the buzzer's pin, BUZ_Beep for `times` tones of `ms` milliseconds, a
-- multiple of 10 that is not 0, succeeds. From then on `phase * (ms / 10) + r` calls of BUZ_Update
-- lead `r` calls into that phase, as long as there are two phases for each tone, and the tone is on
-- in the even phases and off in the odd ones. After the last phase the sequencer rests with the tone
-- off, however often it is called.
pub beep_lem :
    (z : Buzzer) (b : Board) (times ms : ℕ)
    → z.active ≡ 0
    → z.pin ≡ 7
    → 0 < times
    → times < 256
    → 0 < ms
    → ms < 65536
    → ms % 10 ≡ 0
    → let (r, z', b') = beep z b 7 times ms in
      (r ≡ e_ok)
      × ((phase j : ℕ)
          → phase < times * 2
          → j < ms / 10
          → Beeps times (ms / 10) phase j (updates (phase * (ms / 10) + j) (z', b')))
      × ((k : ℕ) → times * 2 * (ms / 10) ≤ k → IsSilent (updates k (z', b')))
beep_lem z b times ms rests pin some_tone few some_ms long whole =
    let (ok, start) = beep-Beeps z b times ms rests pin some_tone some_ms whole in
    let s : Buzzer × Board = ((beep z b 7 times ms).1, (beep z b 7 times ms).2) in
    let period = ms / 10 in
    let pos : 0 < period = omega arith in
    let small : period < 65536 = omega arith in
    (
      ok,
      λ phase j more lt. Beeps-at times period few small s pos start _ phase j refl more lt,
      λ k le.
          IsSilent-after k (times * 2 * period) s le
            (IsSilent-out times period few small s pos start (times * 2 - 1) (omega arith)),
    )
