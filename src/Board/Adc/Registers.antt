-- ===== src/Board/Adc/Registers.antt =====
-- MCAL/ADC/ADC.c on the registers of the converter. A write of ADCSRA with a one at ADIF clears that
-- flag, and one with a zero there leaves it, as the hardware does. The end of a conversion is the
-- hardware's: ADIF is set, ADSC is cleared and ADCL and ADCH hold the result of the selected channel.
use smart_parking_system_nti.Prelude.{
  ℕ, ◌*◌, ◌/◌, ◌%◌, bit, bit_and, bit_or, Option, none, some, if◌then◌else◌, ltb, ◌==◌, ◌!=◌, ◌&&◌,
  ◌||◌, u8, u16, ReturnType, e_ok, e_nok,
}
use smart_parking_system_nti.Dio.{set_bit, clear_bit}

pub record Converter : Type 0 where
  pub admux : ℕ
  pub adcsra : ℕ
  pub adcl : ℕ
  pub adch : ℕ

abbrev pub adie : ℕ
adie = 3

abbrev pub adif : ℕ
adif = 4

abbrev pub adsc : ℕ
adsc = 6

-- a write of ADCSRA
unfoldable pub write_adcsra : Converter → ℕ → Converter
unfolding set_bit clear_bit
write_adcsra c value = record c {
  adcsra =
      if bit value adif == 1
      then clear_bit value adif
      else if bit c.adcsra adif == 1
      then set_bit value adif
      else value;
}

-- the end of a conversion, with what the circuit holds on each channel
unfoldable pub finish : (ℕ → ℕ) → Converter → Converter
unfolding set_bit clear_bit
finish analog c =
    let value = analog (bit_and c.admux 0x1F) in
    record c {
      adcsra = set_bit (clear_bit c.adcsra adsc) adif;
      adcl = value % 256;
      adch = value / 256;
    }

unfoldable pub init : Converter → ℕ → ℕ → ReturnType × Converter
unfolding write_adcsra
init c ref prescaler =
    if ref != 0 && ref != 1 && ref != 3 || (ltb prescaler 1 || ltb 7 prescaler)
    then (e_nok, c)
    else (
      e_ok,
      write_adcsra (record c { admux = u8 (ref * 64) }) (u8 (bit_or (bit_and prescaler 0x07) 128)),
    )

-- the channel is selected, the flag cleared and the conversion started
unfoldable pub begin : Converter → ℕ → Converter
unfolding write_adcsra set_bit
begin c channel =
    let c1 = record c { admux = u8 (bit_or (bit_and c.admux 0xE0) (bit_and channel 0x1F)) } in
    let c2 = write_adcsra c1 (set_bit c1.adcsra adif) in write_adcsra c2 (set_bit c2.adcsra adsc)

-- the flag is cleared and the result read
unfoldable pub take : Converter → ℕ × Converter
unfolding write_adcsra set_bit
take c = (u16 (bit_or c.adcl (u16 (c.adch * 256))), write_adcsra c (set_bit c.adcsra adif))

-- ADC_ReadChannel, whose wait the end of the conversion ends. The pointer is `none` if NULL, else
-- what it points to.
unfoldable pub measure : (ℕ → ℕ) → Converter → ℕ → Option ℕ → ReturnType × Option ℕ × Converter
unfolding begin take finish
measure analog c channel none = (e_nok, none, c)
measure analog c channel (some old) =
    let (value, c') = take (finish analog (begin c channel)) in
    if ltb 7 channel then (e_nok, some old, c) else (e_ok, some value, c')

unfoldable pub start_conversion : Converter → ℕ → ReturnType × Converter
unfolding begin
start_conversion c channel =
    if ltb 7 channel
    then (e_nok, c)
    else if bit c.adcsra adsc != 0
    then (e_nok, c)
    else (e_ok, begin c channel)

unfoldable pub get_result : Converter → Option ℕ → ReturnType × Option ℕ × Converter
unfolding take
get_result c none = (e_nok, none, c)
get_result c (some old) =
    let (value, c') = take c in
    if bit c.adcsra adif == 0 then (e_nok, some old, c) else (e_ok, some value, c')

unfoldable pub set_interrupt : Converter → ℕ → ReturnType × Converter
unfolding write_adcsra set_bit clear_bit
set_interrupt c state =
    if state == 1
    then (e_ok, write_adcsra c (set_bit c.adcsra adie))
    else if state == 0
    then (e_ok, write_adcsra c (clear_bit c.adcsra adie))
    else (e_nok, c)
