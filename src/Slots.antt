-- ===== src/Slots.antt =====
-- HAL/slots/slots.c: the debounced bitmap of the six slot sensors.
pub mod Count
pub mod Debounce
use smart_parking_system_nti.Prelude.{
  ℕ, ◌+◌, ◌-◌, ◌/◌, bit_and, Option, none, some, if◌then◌else◌, ltb, leb, ◌!=◌, u8, ReturnType,
  e_ok, e_nok, zero, suc,
}
use smart_parking_system_nti.Config.{slot_count, slot_mask, slot_map_mask, slot_debounce_samples}
use smart_parking_system_nti.Dio
use smart_parking_system_nti.Dio.{Dio, port_c, dio_input_pullup}

pub record Slots : Type 0 where
  pub published_map : ℕ
  pub candidate : ℕ
  pub sample_count : ℕ

-- the static initialisers
unfoldable pub boot : Slots
boot = record { published_map = 0; candidate = 0; sample_count = 0 }

-- the pins from `SLOT_FIRST_PIN + index` on; the loop stops at the first that fails
init_pins : ℕ → ℕ → Dio → ReturnType × Dio
init_pins zero index io = (e_ok, io)
init_pins (suc left) index io =
    let (s, io') = Dio.init io port_c (u8 (2 + index)) dio_input_pullup in
    elim s [ e_nok ↦ (e_nok, io') | e_ok ↦ init_pins left (index + 1) io' ]

unfoldable pub init : Slots → Dio → ReturnType × Slots × Dio
unfolding init_pins boot
init s io =
    let (r, io') = init_pins slot_count 0 io in
    elim r [ e_nok ↦ (e_nok, s, io') | e_ok ↦ (e_ok, boot, io') ]

-- `((uint8)(~port & SLOT_MASK) >> SLOT_FIRST_PIN) & SLOT_MAP_MASK`
unfoldable pub raw_map : ℕ → ℕ
raw_map port = bit_and (bit_and (255 - port) slot_mask / 4) slot_map_mask

-- one sample of the debounce
unfoldable pub sample : Slots → ℕ → Slots
sample s raw =
    if raw != s.candidate
    then record s { candidate = raw; sample_count = 1 }
    else if ltb s.sample_count slot_debounce_samples
    then (let n = u8 (s.sample_count + 1) in
        if leb slot_debounce_samples n
        then record s { sample_count = n; published_map = s.candidate }
        else record s { sample_count = n })
    else s

unfoldable pub poll : Slots → Dio → ReturnType × Slots
unfolding Dio.read_port sample raw_map
poll s io =
    let (r, value) = Dio.read_port io port_c in
    elim value [ none ↦ (e_nok, s) | some port ↦ (e_ok, sample s (raw_map port)) ]

unfoldable pub get_map : Slots → ℕ
get_map s = s.published_map

-- the bit-counting expression, in `uint8`
unfoldable pub popcount6 : ℕ → ℕ
popcount6 map =
    let m = bit_and map slot_map_mask in
    let pairs = u8 (m - bit_and (m / 2) 0x55) in
    let nibbles = u8 (bit_and pairs 0x33 + bit_and (pairs / 4) 0x33) in
    bit_and (nibbles + nibbles / 16) 0x0F

unfoldable pub count_free : Slots → ℕ
unfolding popcount6
count_free s = u8 (slot_count + 256 - popcount6 s.published_map)
