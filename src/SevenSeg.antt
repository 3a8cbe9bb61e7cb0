-- ===== src/SevenSeg.antt =====
-- HAL/7seg/7seg.c: the free-slot digit, a 4511 decoder on PB0..PB3.
pub mod Digit
use smart_parking_system_nti.Prelude.{
  ℕ, zero, suc, ◌+◌, ◌^◌, ◌&&◌, bit_and, if◌then◌else◌, ltb, ◌==◌, ◌!=◌, u8, ReturnType, e_ok,
  e_nok, on_ok,
}
use smart_parking_system_nti.Dio
use smart_parking_system_nti.Dio.{Dio, port_b, dio_low, dio_high, dio_output}

-- the module's static variables
pub record SevenSeg : Type 0 where
  pub shadow : ℕ
  pub primed : ℕ

abbrev pub blank_code : ℕ
blank_code = 0x0F

abbrev pub max_digit : ℕ
max_digit = 6

-- the static initialisers
unfoldable pub boot : SevenSeg
boot = record { shadow = blank_code; primed = 0 }

-- the loop over `SEG_au8Pins`, which are 0 to 3, from `index` on
unfoldable pub write_nibble_from : Dio → ℕ → ℕ → ℕ → ReturnType × Dio
unfolding Dio.write_pin
write_nibble_from io code zero index = (e_ok, io)
write_nibble_from io code (suc left) index =
    let level = if bit_and code (u8 (2 ^ index)) != 0 then dio_high else dio_low in
    on_ok (Dio.write_pin io port_b index level) (λ io'. write_nibble_from io' code left (index + 1))

unfoldable pub write_nibble : Dio → ℕ → ReturnType × Dio
unfolding write_nibble_from
write_nibble io code = write_nibble_from io code 4 0

-- the end of SEG_Show, from what the write of the pins gives back
unfoldable pub adopt : SevenSeg → ℕ → ReturnType × Dio → ReturnType × SevenSeg × Dio
adopt d code (e_ok, io) = (e_ok, record { shadow = code; primed = 1 }, io)
adopt d code (e_nok, io) = (e_nok, d, io)

unfoldable pub show : SevenSeg → Dio → ℕ → ReturnType × SevenSeg × Dio
unfolding write_nibble adopt
show d io value =
    let code = if ltb max_digit value then blank_code else value in
    if d.primed != 0 && code == d.shadow then (e_ok, d, io) else adopt d code (write_nibble io code)

unfoldable pub blank : SevenSeg → Dio → ReturnType × SevenSeg × Dio
unfolding show
blank d io = show d io blank_code

-- the loop of SEG_Init
unfoldable pub init_pins : Dio → ℕ → ℕ → ReturnType × Dio
unfolding Dio.init
init_pins io zero index = (e_ok, io)
init_pins io (suc left) index =
    on_ok (Dio.init io port_b index dio_output) (λ io'. init_pins io' left (index + 1))

unfoldable pub init : SevenSeg → Dio → ReturnType × SevenSeg × Dio
unfolding init_pins blank
init d io =
    let (r, io') = init_pins io 4 0 in
    elim r [ e_nok ↦ (e_nok, d, io') | e_ok ↦ blank (record d { primed = 0 }) io' ]
