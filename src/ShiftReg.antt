-- ===== src/ShiftReg.antt =====
-- HAL/shiftreg/shiftreg.c: two chained 4094 registers behind the SPI port, and their strobe.
pub mod Chain
use smart_parking_system_nti.Prelude.{
  ℕ, ◌/◌, ◌%◌, ◌==◌, if◌then◌else◌, bit_and, Option, some, List, [], ◌∷◌, u8, ReturnType, e_ok,
  e_nok, on_ok,
}
use smart_parking_system_nti.Dio
use smart_parking_system_nti.Dio.{port_b, dio_low, dio_high, dio_output}
use smart_parking_system_nti.Board.{Board}
use smart_parking_system_nti.Board.Spi

-- the module's static variable
pub record ShiftReg : Type 0 where
  pub shadow : ℕ

abbrev pub rclk_pin : ℕ
rclk_pin = 4

-- `DIO_WritePin` on the strobe, and what the registers make of it
unfoldable pub strobe : Board → ℕ → ReturnType × Board
unfolding Dio.write_pin
strobe b level =
    let (r, io) = Dio.write_pin b.dio port_b rclk_pin level in
    let seen = if level == dio_high then b.spi.shifted else b.spi.latched in
    (r, record b { dio = io; spi = record (b.spi) { latched = seen } })

unfoldable pub strobe_pulse : Board → ReturnType × Board
unfolding strobe
strobe_pulse b = on_ok (strobe b dio_high) (λ b1. strobe b1 dio_low)

-- the loop over `Local_au8Bytes`, which stops at the first transfer that fails
unfoldable pub transfer_all : Board → List ℕ → ReturnType × Board
unfolding Spi.transfer
transfer_all b [] = (e_ok, b)
transfer_all b (byte ∷ bytes) =
    let (r, read, b1) = Spi.transfer b byte (some 0) in
    elim r [ e_nok ↦ (e_nok, b1) | e_ok ↦ transfer_all b1 bytes ]

-- highest register first
abbrev pub bytes_of : ℕ → List ℕ
bytes_of word = u8 (word / 256) ∷ u8 word ∷ []

unfoldable pub write : ShiftReg → Board → ℕ → ReturnType × ShiftReg × Board
unfolding transfer_all strobe_pulse
write s b word =
    let (r, b1) = transfer_all b (bytes_of word) in
    elim r [
      | e_nok ↦ (e_nok, s, b1)
      | e_ok ↦
          let (r2, b2) = strobe_pulse b1 in
          elim r2 [ e_nok ↦ (e_nok, s, b2) | e_ok ↦ (e_ok, record { shadow = word }, b2) ]
    ]

unfoldable pub init : ShiftReg → Board → ReturnType × ShiftReg × Board
unfolding Spi.init Dio.init strobe write
init s b =
    let (r, b1) = Spi.init b in
    let (r2, io) = Dio.init b1.dio port_b rclk_pin dio_output in
    let b2 = record b1 { dio = io } in
    let (r3, b3) = strobe b2 dio_low in
    elim r [
      | e_nok ↦ (e_nok, s, b1)
      | e_ok ↦ elim r2 [
        | e_nok ↦ (e_nok, s, b2)
        | e_ok ↦ elim r3 [ e_nok ↦ (e_nok, s, b3) | e_ok ↦ write (record { shadow = 0xFFFF }) b3 0 ]
      ]
    ]
