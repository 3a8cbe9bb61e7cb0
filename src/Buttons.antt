-- ===== src/Buttons.antt =====
-- HAL/buttons/buttons.c: eight debounced push buttons, one for each pin number.
pub mod Debounce
use smart_parking_system_nti.Prelude.{
  ℕ, zero, suc, ◌+◌, Bool, true, false, Option, none, some, List, [], ◌∷◌, if◌then◌else◌, ltb, leb,
  ◌==◌, flag, u8, length, get_or, set, ReturnType, e_ok, e_nok,
}
use smart_parking_system_nti.Dio
use smart_parking_system_nti.Dio.{Dio, dio_input_pullup}

-- `BTN_StateType`
pub data ButtonState : Type 0 where
  released pressed : ButtonState

-- `==` on it
abbrev pub same : ButtonState → ButtonState → Bool
same released released = true
same pressed pressed = true
same _ _ = false

-- `BTN_ConfigType`
pub record Button : Type 0 where
  pub pin : ℕ
  pub active_level : ℕ
  pub initialized : ℕ
  pub port : ℕ
  pub raw_state : ButtonState
  pub debounced_state : ButtonState
  pub counter : ℕ

abbrev pub max_count : ℕ
max_count = 8

abbrev pub debounce_count : ℕ
debounce_count = 5

-- a row of `g_btns` before it is initialised
abbrev pub unused : Button
unused = record {
  pin = 0;
  active_level = 0;
  initialized = 0;
  port = 0;
  raw_state = released;
  debounced_state = released;
  counter = 0;
}

unfoldable pub init : List Button → Dio → ℕ → ℕ → ℕ → ReturnType × List Button × Dio
unfolding Dio.init
init btns io port pin level =
    let (r, io') = Dio.init io port pin dio_input_pullup in
    let fresh : Button = record {
      pin = pin;
      active_level = level;
      initialized = 1;
      port = port;
      raw_state = released;
      debounced_state = released;
      counter = 0;
    } in
    if leb max_count pin
    then (e_nok, btns, io)
    else elim r [ e_nok ↦ (e_nok, btns, io') | e_ok ↦ (e_ok, set btns pin fresh, io') ]

-- one button's share of the loop, once `currentState` is known
unfoldable pub sample : Button → ButtonState → Button
sample b current =
    let counted = if ltb b.counter debounce_count then u8 (b.counter + 1) else b.counter in
    if same current b.raw_state
    then (if leb debounce_count counted
        then record b { counter = counted; debounced_state = current }
        else record b { counter = counted })
    else record b { raw_state = current; counter = 0 }

-- what `readValue` holds after the call, which leaves it alone where it fails
abbrev pub value_read : Option ℕ → ℕ → ℕ
value_read none before = before
value_read (some value) before = value

-- the loop, with `readValue` as it stands before each round
unfoldable pub update_from : List Button → Dio → ℕ → List Button
unfolding Dio.read_pin sample
update_from [] io value = []
update_from (b ∷ btns) io value =
    let read = value_read (Dio.read_pin io b.port b.pin).1 value in
    let current = if read == b.active_level then pressed else released in
    let skipped = b ∷ update_from btns io value in
    let sampled = sample b current ∷ update_from btns io read in
    if b.initialized == 0 then skipped else sampled

-- `readValue` is uninitialised before the first round, where every row in use reads a real pin; 0
-- stands for what it holds.
unfoldable pub update : List Button → Dio → ReturnType × List Button
unfolding update_from
update btns io = (e_ok, update_from btns io 0)

unfoldable pub get_state : List Button → ℕ → ButtonState
get_state btns pin =
    let b = get_or btns pin unused in
    if leb max_count pin
    then released
    else if b.initialized == 0
    then released
    else b.debounced_state

unfoldable pub is_pressed : List Button → ℕ → ℕ
unfolding get_state
is_pressed btns pin = flag (same (get_state btns pin) pressed)
