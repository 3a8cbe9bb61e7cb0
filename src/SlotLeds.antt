-- ===== src/SlotLeds.antt =====
-- HAL/slotleds/slotleds.c: the slot map and the lot lamp as a word for the register chain.
pub mod Compose
pub mod Update
use smart_parking_system_nti.Prelude.{
  ℕ, zero, suc, ◌+◌, ◌-◌, ◌*◌, ◌^◌, ◌&&◌, bit_and, bit_or, if◌then◌else◌, ltb, ◌==◌, ◌!=◌, u8, u16,
  ReturnType, e_ok, e_nok,
}
use smart_parking_system_nti.Config.{slot_map_mask}
use smart_parking_system_nti.Board.{Board}
use smart_parking_system_nti.ShiftReg
use smart_parking_system_nti.ShiftReg.{ShiftReg}

-- the module's static variables
pub record SlotLeds : Type 0 where
  pub last : ℕ
  pub primed : ℕ

-- `SR_SLOT_LED_PAIRS`, `SR_BIT_SLOT_RED`, `SR_BIT_SLOT_GREEN`, `SR_BIT_LOT_LAMP`, `SR_SPARE_MASK`
abbrev pub led_pairs : ℕ
led_pairs = 6

abbrev pub slot_red : ℕ → ℕ
slot_red i = if ltb i 4 then u16 (2 ^ (i * 2)) else u16 (2 ^ ((i - 4) * 2 + 8))

abbrev pub slot_green : ℕ → ℕ
slot_green i = if ltb i 4 then u16 (2 ^ (i * 2 + 1)) else u16 (2 ^ ((i - 4) * 2 + 9))

abbrev pub lot_lamp : ℕ
lot_lamp = 0x1000

abbrev pub spare_mask : ℕ
spare_mask = 0xE000

-- the loop over the slots from `slot` on, `left` of them
unfoldable pub compose_from : ℕ → ℕ → ℕ → ℕ → ℕ
compose_from map zero slot word = word
compose_from map (suc left) slot word = compose_from map left (slot + 1) (
    if bit_and map (u8 (2 ^ slot)) != 0
    then bit_or word (slot_red slot)
    else bit_or word (slot_green slot))

unfoldable pub compose : ℕ → ℕ → ℕ
unfolding compose_from
compose map lamps =
    let word = compose_from (bit_and map slot_map_mask) led_pairs 0 0 in
    u16 (bit_and (if lamps != 0 then bit_or word lot_lamp else word) (65535 - spare_mask))

unfoldable pub init : SlotLeds → ShiftReg → Board → ReturnType × SlotLeds × ShiftReg × Board
unfolding ShiftReg.init
init l s b =
    let (r, s', b') = ShiftReg.init s b in
    elim r [ e_nok ↦ (e_nok, l, s', b') | e_ok ↦ (e_ok, record { last = 0; primed = 0 }, s', b') ]

unfoldable pub update :
    SlotLeds → ShiftReg → Board → ℕ → ℕ → ReturnType × SlotLeds × ShiftReg × Board
unfolding ShiftReg.write
update l s b map lamps =
    let word = compose map lamps in
    let (r, s', b') = ShiftReg.write s b word in
    if l.primed != 0 && word == l.last then (e_ok, l, s, b) else elim r [
      | e_nok ↦ (e_nok, l, s', b')
      | e_ok ↦ (e_ok, record { last = word; primed = 1 }, s', b')
    ]

abbrev pub pattern_red : ℕ
pattern_red = 1

abbrev pub pattern_green : ℕ
pattern_green = 2

-- the loop of LED_TestPattern
unfoldable pub pattern_from : ℕ → ℕ → ℕ → ℕ → ℕ
pattern_from kind zero slot word = word
pattern_from kind (suc left) slot word = pattern_from kind left (slot + 1) (
    if kind == pattern_red
    then bit_or word (slot_red slot)
    else if kind == pattern_green
    then bit_or word (slot_green slot)
    else word)

unfoldable pub test_pattern :
    SlotLeds → ShiftReg → Board → ℕ → ReturnType × SlotLeds × ShiftReg × Board
unfolding ShiftReg.write pattern_from
test_pattern l s b kind =
    let (r, s', b') = ShiftReg.write s b (pattern_from kind led_pairs 0 0) in
    (r, record l { primed = 0 }, s', b')
