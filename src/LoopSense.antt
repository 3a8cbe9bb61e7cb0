-- ===== src/LoopSense.antt =====
-- APP/loopsense/loopsense.c: one inductive loop, read through the ADC. A `LoopSense_t *` is an
-- option, `none` for NULL. The lane that its `lane` field points to is passed and returned beside it,
-- since the lane's own state machine writes it too.
pub mod Confirm
use smart_parking_system_nti.Prelude.{
  ℕ, ◌+◌, Option, none, some, if◌then◌else◌, ltb, leb, ◌==◌, flag, u8, ReturnType, e_ok, e_nok,
}
use smart_parking_system_nti.Config.{loop_present_raw, loop_clear_raw, loopsense_confirm_samples}
use smart_parking_system_nti.Board.{Board}
use smart_parking_system_nti.Board.Adc.{read_channel}
use smart_parking_system_nti.Lane.{Lane, request_open}

-- `LoopSense_t`, less its pointer
pub record LoopSense : Type 0 where
  pub adc_channel : ℕ
  pub confirmed_active : ℕ
  pub candidate_count : ℕ

unfoldable pub init : Option LoopSense → ℕ → Option Lane → ReturnType × Option LoopSense
init none channel lane = (e_nok, none)
init (some s) channel none = (e_nok, some s)
init (some s) channel (some lane) =
    (e_ok, some (record { adc_channel = channel; confirmed_active = 0; candidate_count = 0 }))

-- `Local_u8CandidateState`
unfoldable pub vote : LoopSense → ℕ → ℕ
vote s raw =
    if s.confirmed_active == 0
    then flag (ltb loop_present_raw raw)
    else (if ltb raw loop_clear_raw then 0 else 1)

-- what LOOPSENSE_Run does with a reading
unfoldable pub observe : LoopSense → Lane → ℕ → LoopSense × Lane
unfolding vote request_open
observe s ln raw =
    let state = vote s raw in
    let counted = u8 (s.candidate_count + 1) in
    if state == s.confirmed_active
    then (record s { candidate_count = 0 }, ln)
    else if leb loopsense_confirm_samples counted
    then (record s { confirmed_active = state; candidate_count = 0 }, request_open ln state)
    else (record s { candidate_count = counted }, ln)

unfoldable pub run : Option LoopSense → Lane → Board → ReturnType × Option LoopSense × Lane
unfolding read_channel observe
run none ln b = (e_nok, none, ln)
run (some s) ln b =
    let (r, reading) = read_channel b s.adc_channel in
    elim reading [
      | none ↦ (e_nok, some s, ln)
      | some raw ↦ let (s', ln') = observe s ln raw in (e_ok, some s', ln')
    ]
