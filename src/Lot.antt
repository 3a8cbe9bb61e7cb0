-- ===== src/Lot.antt =====
-- APP/lot/lot_fsm.c: the occupancy counts and the mode of the lot.
pub mod Counts
pub mod Modes
use smart_parking_system_nti.Prelude.{
  ℕ, ◌+◌, ◌-◌, ◌/◌, ◌&&◌, bit_and, Bool, true, false, if◌then◌else◌, ltb, ◌==◌, ◌!=◌, flag, u8,
  ReturnType, e_ok, e_nok,
}
use smart_parking_system_nti.Config.{slot_count}
use smart_parking_system_nti.Dio.{Dio}
use smart_parking_system_nti.Slots
use smart_parking_system_nti.Slots.{Slots}

pub data LotState : Type 0 where
  initial operational full maintenance fault : LotState

abbrev pub is_operational : LotState → Bool
is_operational operational = true
is_operational _ = false

abbrev pub is_maintenance : LotState → Bool
is_maintenance maintenance = true
is_maintenance _ = false

abbrev pub is_fault : LotState → Bool
is_fault fault = true
is_fault _ = false

-- the module's static variables
pub record Lot : Type 0 where
  pub state : LotState
  pub slot_map : ℕ
  pub free_slots : ℕ
  pub occupied_slots : ℕ
  pub peak_occupancy : ℕ

-- `LOT_Popcount6`: the expression of slots.c without its mask
unfoldable pub popcount6 : ℕ → ℕ
popcount6 value =
    let pairs = u8 (value - bit_and (value / 2) 0x55) in
    let nibbles = u8 (bit_and pairs 0x33 + bit_and (pairs / 4) 0x33) in
    bit_and (nibbles + nibbles / 16) 0x0F

unfoldable pub init : Lot
init = record {
  state = initial;
  slot_map = 0;
  free_slots = slot_count;
  occupied_slots = 0;
  peak_occupancy = 0;
}

-- the mode that the free count gives
abbrev pub open_mode : ℕ → LotState
open_mode free = if free == 0 then full else operational

-- the counts of a new map
counted : Lot → ℕ → Lot
counted l map =
    let occupied = popcount6 map in
    record l {
      slot_map = map;
      free_slots = u8 (slot_count + 256 - occupied);
      occupied_slots = occupied;
      peak_occupancy = if ltb l.peak_occupancy occupied then occupied else l.peak_occupancy;
    }

-- `SLOT_Poll` is called first; a failure is a fault and nothing else happens.
unfoldable pub run : Lot → Slots → Dio → Lot × Slots
unfolding counted
run l s io =
    let (r, s') = Slots.poll s io in
    let c = counted l (Slots.get_map s') in
    elim r [
      | e_nok ↦ (record l { state = fault }, s')
      | e_ok ↦ (
        if is_maintenance l.state
            then c
            else if is_fault l.state
            then c
            else record c { state = open_mode c.free_slots },
        s',
      )
    ]

unfoldable pub can_authorise_entry : Lot → ℕ
can_authorise_entry l = flag (is_operational l.state && ltb 0 l.free_slots)

unfoldable pub set_maintenance : Lot → ℕ → Lot
set_maintenance l enabled =
    if enabled != 0
    then record l { state = maintenance }
    else record l { state = open_mode l.free_slots }

unfoldable pub set_fault : Lot → ℕ → Lot
set_fault l enabled =
    if enabled != 0 then record l { state = fault } else record l { state = open_mode l.free_slots }
