-- ===== src/Dio.antt =====
-- MCAL/dio/dio.c: the digital pins. A register is its byte. A PIN register holds what the pins
-- read, which the circuit sets: no function here writes one.
pub mod Pins
use smart_parking_system_nti.Prelude.{
  ℕ, ◌-◌, ◌/◌, ◌%◌, ◌^◌, bit_and, bit_or, bit_xor, Option, none, some, if◌then◌else◌, ltb, ◌==◌,
  ReturnType, e_ok, e_nok,
}

pub record Port : Type 0 where
  pub ddr : ℕ
  pub port : ℕ
  pub pin : ℕ

pub record Dio : Type 0 where
  pub a : Port
  pub b : Port
  pub c : Port
  pub d : Port

-- DIO_PORTA to DIO_PORTD
abbrev pub port_b : ℕ
port_b = 1

abbrev pub port_c : ℕ
port_c = 2

abbrev pub port_d : ℕ
port_d = 3

abbrev pub dio_low : ℕ
dio_low = 0

abbrev pub dio_high : ℕ
dio_high = 1

-- DIO_INPUT, DIO_OUTPUT and DIO_INPUT_PULLUP
abbrev pub dio_output : ℕ
dio_output = 1

abbrev pub dio_input_pullup : ℕ
dio_input_pullup = 2

-- `reg |= 1 << pin` and `reg &= ~(1 << pin)`
unfoldable pub set_bit : ℕ → ℕ → ℕ
set_bit reg pin = bit_or reg (2 ^ pin)

unfoldable pub clear_bit : ℕ → ℕ → ℕ
clear_bit reg pin = bit_and reg (255 - 2 ^ pin)

-- the `switch` over the port number, E_NOK by default
unfoldable pub on_port : Dio → ℕ → (Port → Port) → ReturnType × Dio
on_port d n f =
    if n == 0
    then (e_ok, record d { a = f d.a })
    else if n == 1
    then (e_ok, record d { b = f d.b })
    else if n == 2
    then (e_ok, record d { c = f d.c })
    else if n == 3
    then (e_ok, record d { d = f d.d })
    else (e_nok, d)

unfoldable pub port_of : Dio → ℕ → Option Port
port_of d n =
    if n == 0
    then some d.a
    else if n == 1
    then some d.b
    else if n == 2
    then some d.c
    else if n == 3
    then some d.d
    else none

unfoldable pub init : Dio → ℕ → ℕ → ℕ → ReturnType × Dio
unfolding on_port
init d port pin direction =
    if ltb 7 pin
    then (e_nok, d)
    else on_port d port λ p.
      if direction == dio_output
      then record p { ddr = set_bit p.ddr pin }
      else if direction == dio_input_pullup
      then record p { ddr = clear_bit p.ddr pin; port = set_bit p.port pin }
      else record p { ddr = clear_bit p.ddr pin; port = clear_bit p.port pin }

unfoldable pub write_pin : Dio → ℕ → ℕ → ℕ → ReturnType × Dio
unfolding on_port
write_pin d port pin value =
    if ltb 7 pin
    then (e_nok, d)
    else on_port d port λ p.
      if value == dio_high
      then record p { port = set_bit p.port pin }
      else record p { port = clear_bit p.port pin }

-- The value stored through the pointer, where one is. No caller passes NULL.
unfoldable pub read_pin : Dio → ℕ → ℕ → ReturnType × Option ℕ
unfolding port_of
read_pin d port pin = if ltb 7 pin then (e_nok, none) else elim (port_of d port) [
  | none ↦ (e_nok, none)
  | some p ↦ (e_ok, some (p.pin / 2 ^ pin % 2))
]

unfoldable pub write_port : Dio → ℕ → ℕ → ReturnType × Dio
unfolding on_port
write_port d port value = on_port d port λ p. record p { port = value }

unfoldable pub read_port : Dio → ℕ → ReturnType × Option ℕ
unfolding port_of
read_port d port = elim (port_of d port) [ none ↦ (e_nok, none) | some p ↦ (e_ok, some p.pin) ]

unfoldable pub toggle_pin : Dio → ℕ → ℕ → ReturnType × Dio
unfolding on_port
toggle_pin d port pin =
    if ltb 7 pin
    then (e_nok, d)
    else on_port d port λ p. record p { port = bit_xor p.port (2 ^ pin) }
