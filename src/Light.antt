-- ===== src/Light.antt =====
-- APP/light/light.c: the yard lamps, from the light sensor. The threshold is the console's setting,
-- `CONSOLE_GetLightThresh()`.
pub mod Hysteresis
use smart_parking_system_nti.Prelude.{
  ℕ, ◌+◌, ◌*◌, ◌/◌, Option, none, some, if◌then◌else◌, ltb, leb, ◌==◌, u8, u16, ReturnType, e_ok,
  e_nok,
}
use smart_parking_system_nti.Config.{light_adc_channel, light_hysteresis_percent}
use smart_parking_system_nti.Board.{Board}
use smart_parking_system_nti.Board.Adc.{read_channel}

-- the module's static variable
pub record Light : Type 0 where
  pub lamps_on : ℕ

unfoldable pub init : ReturnType × Light
init = (e_ok, record { lamps_on = 0 })

-- `LIGHT_PCT_TO_RAW`
unfoldable pub pct_to_raw : ℕ → ℕ
pct_to_raw p = u16 (p * 1023 / 100)

-- `Local_u8OffThreshold`
unfoldable pub off_percent : ℕ → ℕ
off_percent threshold =
    let sum = u8 (threshold + light_hysteresis_percent) in if ltb 100 sum then 100 else sum

-- what LIGHT_Run does with a reading
unfoldable pub switch : Light → ℕ → ℕ → Light
unfolding pct_to_raw off_percent
switch l threshold raw =
    if l.lamps_on == 0
    then (if ltb raw (pct_to_raw threshold) then record { lamps_on = 1 } else l)
    else (if leb (pct_to_raw (off_percent threshold)) raw then record { lamps_on = 0 } else l)

unfoldable pub run : Light → ℕ → Board → ReturnType × Light
unfolding read_channel switch
run l threshold b =
    let (r, reading) = read_channel b light_adc_channel in
    elim reading [ none ↦ (e_nok, l) | some raw ↦ (e_ok, switch l threshold raw) ]
