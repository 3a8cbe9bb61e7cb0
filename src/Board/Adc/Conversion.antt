-- ===== src/Board/Adc/Conversion.antt =====
-- Conversions by MCAL/ADC/ADC.c, from their start to their result.
use smart_parking_system_nti.Prelude.{
  ℕ, ◌+◌, ◌*◌, ◌/◌, ◌%◌, ◌<◌, ◌≡◌, refl, sym, ap, subst, ◌∙◌, true, false, ◌&&◌, ◌==◌, ◌!=◌, ltb,
  bit, bit_and, bit_or, u8, u16, Option, some, all_below, all_below_sound, agree_below, ReturnType,
  e_ok, e_nok, arith,
}
use smart_parking_system_nti.Board.{Board}
use smart_parking_system_nti.Board.Adc.{read_channel}
use smart_parking_system_nti.Board.Adc.Registers.{
  Converter, finish, begin, take, measure, start_conversion, get_result, set_interrupt,
}

-- a converter of which only the status counts
abbrev status : ℕ → Converter
status a = record { admux = 0; adcsra = a; adcl = 0; adch = 0 }

begin_table :
    all_below 256
      (λ a. let s = (begin (status a) 0).adcsra in bit s 6 == 1 && bit s 4 == 0 && s / 256 == 0)
    ≡ true
unfolding all_below begin
begin_table = refl

finish_table :
    all_below 256 (λ a. let s = (finish (λ k. 0) (status a)).adcsra in bit s 4 == 1 && s / 256 == 0)
    ≡ true
unfolding all_below finish
finish_table = refl

clear_table :
    all_below 256 (λ a.
      bit (take (status a)).1.adcsra 4 == 0 && bit (set_interrupt (status a) 1).1.adcsra 4 == 0)
    ≡ true
unfolding all_below take set_interrupt
clear_table = refl

select_table :
    all_below 2048
      (λ q. bit_and (u8 (bit_or (bit_and (q / 8) 224) (bit_and (q % 8) 31))) 31 == q % 8)
    ≡ true
unfolding all_below
select_table = refl

join_table : all_below 1024 (λ v. u16 (bit_or (v % 256) (u16 (v / 256 * 256))) == v) ≡ true
unfolding all_below
join_table = refl

begin_lem :
    (c : Converter) (channel : ℕ)
    → c.adcsra < 256
    → let s = (begin c channel).adcsra in (bit s 6 ≡ 1) × (bit s 4 ≡ 0) × (s < 256)
unfolding begin
begin_lem c channel h =
    let at =
      all_below_sound 256
        (λ a. let s = (begin (status a) 0).adcsra in bit s 6 == 1 && bit s 4 == 0 && s / 256 == 0)
        c.adcsra begin_table h in
    ground arith

finish_lem :
    (analog : ℕ → ℕ) (c : Converter)
    → c.adcsra < 256
    → let s = (finish analog c).adcsra in (bit s 4 ≡ 1) × (s < 256)
unfolding finish
finish_lem analog c h =
    let at =
      all_below_sound 256
        (λ a. let s = (finish (λ k. 0) (status a)).adcsra in bit s 4 == 1 && s / 256 == 0) c.adcsra
        finish_table h in
    ground arith

clear_lem :
    (c : Converter)
    → c.adcsra < 256
    → (bit (take c).1.adcsra 4 ≡ 0) × (bit (set_interrupt c 1).1.adcsra 4 ≡ 0)
unfolding take set_interrupt
clear_lem c h =
    let at =
      all_below_sound 256
        (λ a.
          bit (take (status a)).1.adcsra 4 == 0 && bit (set_interrupt (status a) 1).1.adcsra 4 == 0)
        c.adcsra clear_table h in
    ground arith

select_lem :
    (c : Converter) (channel : ℕ)
    → c.admux < 256
    → channel < 8
    → bit_and (begin c channel).admux 31 ≡ channel
unfolding begin
select_lem c channel hm hc =
    let q = c.admux * 8 + channel in
    let m_at : q / 8 ≡ c.admux = omega arith in
    let c_at : q % 8 ≡ channel = omega arith in
    let at_q =
      agree_below 2048 (λ x. bit_and (u8 (bit_or (bit_and (x / 8) 224) (bit_and (x % 8) 31))) 31)
        (λ x. x % 8) select_table q (omega arith) in
    sym (λ k. bit_and (u8 (bit_or (bit_and (m_at k) 224) (bit_and (c_at k) 31))) 31) ∙ at_q ∙ c_at

-- what the two bytes of a finished conversion are read as
result_lem :
    (analog : ℕ → ℕ) (c : Converter) (channel : ℕ)
    → c.admux < 256
    → channel < 8
    → analog channel < 1024
    → (take (finish analog (begin c channel))).0 ≡ analog channel
unfolding take finish
result_lem analog c channel hm hc ten =
    let chosen : analog (bit_and (begin c channel).admux 31) ≡ analog channel =
      ap analog (select_lem c channel hm hc) in
    ap (λ v. u16 (bit_or (v % 256) (u16 (v / 256 * 256)))) chosen
    ∙ agree_below 1024 (λ v. u16 (bit_or (v % 256) (u16 (v / 256 * 256)))) (λ v. v) join_table
        (analog channel) ten

started :
    (c : Converter) (channel : ℕ)
    → channel < 8
    → bit c.adcsra 6 ≡ 0
    → start_conversion c channel ≡ (e_ok, begin c channel)
unfolding start_conversion
started c channel hc idle =
    let low : ltb 7 channel ≡ false = ground arith in
    let stopped : (bit c.adcsra 6 != 0) ≡ false = ground arith in rw (low, stopped) refl

refused : (c : Converter) (other : ℕ) → bit c.adcsra 6 ≡ 1 → (start_conversion c other).0 ≡ e_nok
unfolding start_conversion
refused c other running = ground arith

pending :
    (c : Converter) (old : ℕ) → bit c.adcsra 4 ≡ 0 → get_result c (some old) ≡ (e_nok, some old, c)
unfolding get_result
pending c old clear = let e : (bit c.adcsra 4 == 0) ≡ true = ground arith in rw e refl

done :
    (c : Converter) (old : ℕ)
    → bit c.adcsra 4 ≡ 1
    → get_result c (some old) ≡ (e_ok, some (take c).0, (take c).1)
unfolding get_result
done c old raised = let e : (bit c.adcsra 4 == 0) ≡ false = ground arith in rw e refl

-- the result is there, and once
abbrev pub IsDelivered : ℕ → ReturnType × Option ℕ × Converter → Type 0
IsDelivered value r =
    (r.0 ≡ e_ok) × (r.1 ≡ some value) × ((old : ℕ) → (get_result r.2 (some old)).0 ≡ e_nok)

module _ (analog : ℕ → ℕ) (c : Converter) (channel old : ℕ) (mux : c.admux < 256)
    (byte : c.adcsra < 256) (exists : channel < 8) (ten_bits : analog channel < 1024) where
  -- With no conversion running, ADC_StartConversion of one of the eight channels succeeds. Until the
  -- conversion ends every other start is refused, and ADC_GetResult is too and changes nothing. After
  -- its end ADC_GetResult gives what the circuit holds on the channel, a 10-bit value, and only once.
  -- But if ADC_SetInterrupt enables the interrupt in between, the result is lost.
  pub conversion_lem :
      bit c.adcsra 6 ≡ 0
      → let (r, c1) = start_conversion c channel in
        (r ≡ e_ok)
        × ((other : ℕ) → (start_conversion c1 other).0 ≡ e_nok)
        × (get_result c1 (some old) ≡ (e_nok, some old, c1))
        × IsDelivered (analog channel) (get_result (finish analog c1) (some old))
        × ((get_result (set_interrupt (finish analog c1) 1).1 (some old)).0 ≡ e_nok)
  conversion_lem idle =
      let c1 = begin c channel in
      let c2 = finish analog c1 in
      let Fine : ReturnType × Converter → Type 0 = λ s.
        (s.0 ≡ e_ok)
        × ((other : ℕ) → (start_conversion s.1 other).0 ≡ e_nok)
        × (get_result s.1 (some old) ≡ (e_nok, some old, s.1))
        × IsDelivered (analog channel) (get_result (finish analog s.1) (some old))
        × ((get_result (set_interrupt (finish analog s.1) 1).1 (some old)).0 ≡ e_nok) in
      let (running, clear, byte1) = begin_lem c channel byte in
      let (raised, byte2) = finish_lem analog c1 byte1 in
      let (read, lost) = clear_lem c2 byte2 in
      let value = result_lem analog c channel mux exists ten_bits in
      subst Fine (sym (started c channel exists idle)) (
        refl,
        λ other. refused c1 other running,
        pending c1 old clear,
        subst (IsDelivered (analog channel)) (sym (done c2 old raised))
            (refl, ap some value, λ again. ap (λ r. r.0) (pending (take c2).1 again read)),
        ap (λ r. r.0) (pending (set_interrupt c2 1).1 old lost),
      )

-- ADC_ReadChannel on the registers does what its callers see of it: for one of the eight channels it
-- succeeds with the value that the circuit holds there, if that has 10 bits.
pub measure_lem :
    (b : Board) (c : Converter) (channel old : ℕ)
    → c.admux < 256
    → channel < 8
    → b.analog channel < 1024
    → let (r, value, c') = measure b.analog c channel (some old) in
      (r, value) ≡ read_channel b channel
unfolding measure read_channel
measure_lem b c channel old mux exists ten_bits =
    let low : ltb 7 channel ≡ false = ground arith in
    rw low (ap (λ v. (e_ok, some v)) (result_lem b.analog c channel mux exists ten_bits))
