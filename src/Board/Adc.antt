-- ===== src/Board/Adc.antt =====
-- MCAL/ADC/ADC.c as its callers see it: the set-up's checks and the blocking read of one channel. The
-- conversion is the hardware's, so its result is what the board's `analog` gives. Board/Adc/Registers
-- has the whole driver on the converter's registers.
pub mod Registers
pub mod Conversion
use smart_parking_system_nti.Prelude.{
  ℕ, Option, none, some, if◌then◌else◌, ltb, ◌!=◌, ◌&&◌, ◌||◌, ReturnType, e_ok, e_nok,
}
use smart_parking_system_nti.Board.{Board}

-- ADC_REF_AREF, ADC_REF_AVCC, ADC_REF_INTERNAL_2V56, ADC_PRESC_2 and ADC_PRESC_128 as numbers
unfoldable pub init : ℕ → ℕ → ReturnType
init ref prescaler =
    if ref != 0 && ref != 1 && ref != 3 || (ltb prescaler 1 || ltb 7 prescaler) then e_nok else e_ok

-- ADC_ReadChannel without its check for NULL, which no caller passes
unfoldable pub read_channel : Board → ℕ → ReturnType × Option ℕ
read_channel b channel = if ltb 7 channel then (e_nok, none) else (e_ok, some (b.analog channel))
