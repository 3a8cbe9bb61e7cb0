-- ===== src/Ticketing.antt =====
-- APP/ticketing/ticketing.c: the fixed table of open tickets.
pub mod Table
pub mod Issue
pub mod Oldest
pub mod Lines
pub mod Valid
use smart_parking_system_nti.Prelude.{
  ℕ, zero, suc, ◌+◌, ◌^◌, ◌&&◌, bit_and, Option, none, some, List, [], ◌∷◌, ◌++◌, if◌then◌else◌,
  ltb, leb, ◌==◌, ◌!=◌, u8, u16, get_or, set, replicate, ReturnType, e_ok, e_nok,
}
use smart_parking_system_nti.Config.{slot_count, ticket_max, ticket_id_first, ticket_id_last}
use smart_parking_system_nti.Text.{codes, decimal, four_digits}
use smart_parking_system_nti.SoftRtc
use smart_parking_system_nti.SoftRtc.{SoftRtc}
use smart_parking_system_nti.Slots
use smart_parking_system_nti.Slots.{Slots}
use smart_parking_system_nti.Lot.{Lot}
use smart_parking_system_nti.Board.{Board}
use smart_parking_system_nti.Board.Usart.{send_string, send_byte}

-- `Ticket_t`
pub record Ticket : Type 0 where
  pub id : ℕ
  pub entry_sec : ℕ
  pub slot_hint : ℕ
  pub active : ℕ

-- the module's static variables
pub record Ticketing : Type 0 where
  pub tickets : List Ticket
  pub next_id : ℕ
  pub total_entries : ℕ

abbrev pub blank : Ticket
blank = record { id = 0; entry_sec = 0; slot_hint = 0; active = 0 }

unfoldable pub init : Ticketing
init = record { tickets = replicate ticket_max blank; next_id = ticket_id_first; total_entries = 0 }

-- the loop over the rows from `index` on
unfoldable pub free_row_from : List Ticket → ℕ → ℕ
free_row_from [] index = ticket_max
free_row_from (t ∷ rows) index =
    let rest = free_row_from rows (index + 1) in if t.active == 0 then index else rest

unfoldable pub find_free_row : Ticketing → ℕ
unfolding free_row_from
find_free_row t = free_row_from t.tickets 0

-- the loop over the slots from `slot` on, `left` of them
unfoldable pub free_slot_from : ℕ → ℕ → ℕ → ℕ
free_slot_from map zero slot = 0
free_slot_from map (suc left) slot =
    let rest = free_slot_from map left (slot + 1) in
    if bit_and map (u8 (2 ^ slot)) == 0 then u8 (slot + 1) else rest

unfoldable pub find_nearest_free_slot : ℕ → ℕ
unfolding free_slot_from
find_nearest_free_slot map = free_slot_from map slot_count 0

-- the ten bytes of a time, or the placeholder where RTC_Format refuses the buffer
time_text : ℕ → List ℕ
unfolding SoftRtc.format
time_text sec =
    let (s, buf) = SoftRtc.format sec (some (replicate 10 0)) 10 in
    elim s [ e_nok ↦ codes "---:--:--" | e_ok ↦ elim buf [ none ↦ [] | some text ↦ text ] ]

abbrev pub crlf : List ℕ
crlf = 13 ∷ 10 ∷ []

unfoldable pub print_entry_frame : Board → Ticket → ℕ → Board
unfolding time_text send_string send_byte four_digits
print_entry_frame b t free =
    let b1 = send_string b (codes "=== PARKING TICKET ===" ++ crlf) in
    let b2 = send_string b1 (codes "ID    : ") in
    let b3 = send_string b2 (four_digits t.id) in
    let b4 = send_string b3 (crlf ++ codes "TIME  : ") in
    let b5 = send_string b4 (time_text t.entry_sec) in
    let b6 = send_string b5 (crlf ++ codes "SLOT  : suggest ") in
    let b7 = send_byte b6 (u8 (b'0' + t.slot_hint)) in
    let b8 = send_string b7 (crlf ++ codes "FREE  : ") in
    let b9 = send_byte b8 (u8 (b'0' + free)) in
    send_string b9 (crlf ++ codes "======================" ++ crlf)

-- the ticket that an authorised entry opens
unfoldable pub new_ticket : Ticketing → SoftRtc → Slots → Ticket
unfolding SoftRtc.seconds Slots.get_map
new_ticket t rtc slots = record {
  id = t.next_id;
  entry_sec = SoftRtc.seconds rtc;
  slot_hint = find_nearest_free_slot (Slots.get_map slots);
  active = 1;
}

unfoldable pub next_id_after : ℕ → ℕ
next_id_after id = if leb ticket_id_last id then ticket_id_first else u16 (id + 1)

unfoldable pub on_entry_authorized : Ticketing → SoftRtc → Slots → Lot → Board → Ticketing × Board
on_entry_authorized t rtc slots lot b =
    let row = find_free_row t in
    let opened = new_ticket t rtc slots in
    if leb ticket_max row then (t, b) else (
      record {
        tickets = set t.tickets row opened;
        next_id = next_id_after t.next_id;
        total_entries = u16 (t.total_entries + 1);
      },
      print_entry_frame b opened lot.free_slots,
    )

-- the scan for the smallest entry time, over the rows from `index` on
unfoldable pub oldest_row_from : List Ticket → ℕ → ℕ → ℕ → ℕ
oldest_row_from [] index row sec = row
oldest_row_from (t ∷ rows) index row sec =
    let older = t.active != 0 && ltb t.entry_sec sec in
    oldest_row_from rows (index + 1) (if older then index else row)
      (if older then t.entry_sec else sec)

unfoldable pub oldest_row : Ticketing → ℕ
unfolding oldest_row_from
oldest_row t = oldest_row_from t.tickets 0 ticket_max 0xFFFFFFFF

-- The two pointers are `none` if NULL, else what they point to.
unfoldable pub close_oldest :
    Ticketing → Option ℕ → Option ℕ → ReturnType × Option ℕ × Option ℕ × Ticketing
close_oldest t none sec = (e_nok, none, sec, t)
close_oldest t (some id) none = (e_nok, some id, none, t)
close_oldest t (some id) (some sec) =
    let row = oldest_row t in
    let found = get_or t.tickets row blank in
    if leb ticket_max row then (e_nok, some id, some sec, t) else (
      e_ok,
      some found.id,
      some found.entry_sec,
      record t { tickets = set t.tickets row (record found { active = 0 }) },
    )

-- A pointer into the table is the row that it points to.
find_from : List Ticket → ℕ → Option Ticket
find_from [] id = none
find_from (t ∷ rows) id =
    let rest = find_from rows id in if t.active != 0 && t.id == id then some t else rest

unfoldable pub find : Ticketing → ℕ → Option Ticket
unfolding find_from
find t id = find_from t.tickets id

unfoldable pub open_rows : List Ticket → ℕ
open_rows [] = 0
open_rows (t ∷ rows) = let rest = open_rows rows in if t.active != 0 then suc rest else rest

unfoldable pub get_open_count : Ticketing → ℕ
unfolding open_rows
get_open_count t = u8 (open_rows t.tickets)

-- the line of one ticket, without its NUL
unfoldable pub ticket_line : Ticket → List ℕ
unfolding decimal
ticket_line t =
    codes "TKT,"
    ++ (decimal 10 t.id
        ++ (codes ","
            ++ (decimal 10 t.entry_sec ++ (codes "," ++ (decimal 10 t.slot_hint ++ crlf)))))

unfoldable pub print_rows : List Ticket → Board → Board
unfolding ticket_line send_string
print_rows [] b = b
print_rows (t ∷ rows) b =
    print_rows rows (if t.active == 0 then b else send_string b (ticket_line t))

unfoldable pub print_open_tickets : Ticketing → Board → Board
unfolding print_rows
print_open_tickets t b = print_rows t.tickets b

unfoldable pub clear_stats : Ticketing → Ticketing
clear_stats t = record t { total_entries = 0 }
