-- ===== src/Ticketing/Valid.antt =====
-- The ranges of the ticket table (APP/ticketing/ticketing.c).
use smart_parking_system_nti.Prelude.{
  ℕ, ◌<◌, ◌≤◌, ◌≡◌, refl, arith, length, length-set, set, get_or, inl, inr, some, Bool-cases, leb,
}
use smart_parking_system_nti.SoftRtc
use smart_parking_system_nti.SoftRtc.{SoftRtc}
use smart_parking_system_nti.Slots
use smart_parking_system_nti.Slots.{Slots}
use smart_parking_system_nti.Lot.{Lot}
use smart_parking_system_nti.Lot.Counts.{IsSixBit}
use smart_parking_system_nti.Board.{Board}
use smart_parking_system_nti.Ticketing.{
  Ticket, Ticketing, blank, init, find_free_row, new_ticket, next_id_after, on_entry_authorized,
  close_oldest, oldest_row,
}
use smart_parking_system_nti.Ticketing.Table.{All, All-set, All-get}
use smart_parking_system_nti.Ticketing.Issue.{next_id_after_in, find_nearest_free_slot_lem}

pub record IsTicket (t : Ticket) : Type 0 where
  pub id_in : t.id ≤ 9999
  pub time_in : t.entry_sec < 4294967296
  pub hint_in : t.slot_hint ≤ 6

pub record IsValid (t : Ticketing) : Type 0 where
  pub size : length t.tickets ≡ 6
  pub id_low : 1 ≤ t.next_id
  pub id_high : t.next_id ≤ 9999
  pub counted : t.total_entries < 65536
  pub rows : All IsTicket t.tickets

blank-IsTicket : IsTicket blank
blank-IsTicket = omega arith

-- The table that TKT_Init sets up is valid.
pub init-IsValid : IsValid init
unfolding init
init-IsValid = record {
  size = refl;
  id_low = omega arith;
  id_high = omega arith;
  counted = omega arith;
  rows = omega arith;
}

new_ticket-IsTicket :
    (t : Ticketing) (rtc : SoftRtc) (slots : Slots)
    → IsValid t
    → rtc.uptime_sec < 4294967296
    → IsSixBit slots
    → IsTicket (new_ticket t rtc slots)
unfolding new_ticket SoftRtc.seconds Slots.get_map
new_ticket-IsTicket t rtc slots v clock six = record {
  id_in = v.id_high;
  time_in = clock;
  hint_in = (find_nearest_free_slot_lem slots.published_map 0 six.published (omega arith)).0;
}

set-IsValid :
    (t : Ticketing) (row : ℕ) (x : Ticket) (id entries : ℕ)
    → IsValid t
    → IsTicket x
    → 1 ≤ id
    → id ≤ 9999
    → entries < 65536
    → IsValid (record { tickets = set t.tickets row x; next_id = id; total_entries = entries })
set-IsValid t row x id entries v ok lo hi e = record {
  size = omega (arith, length-set t.tickets row x, v.size);
  id_low = lo;
  id_high = hi;
  counted = e;
  rows = All-set IsTicket t.tickets row x v.rows ok;
}

-- Every entry keeps the table valid: six rows, ticket numbers from 1 to 9999, 32-bit times and
-- suggested slots from 0 to 6.
pub on_entry-IsValid :
    (t : Ticketing) (rtc : SoftRtc) (slots : Slots) (lot : Lot) (b : Board)
    → IsValid t
    → rtc.uptime_sec < 4294967296
    → IsSixBit slots
    → IsValid (on_entry_authorized t rtc slots lot b).0
unfolding on_entry_authorized
on_entry-IsValid t rtc slots lot b v clock six = elim (Bool-cases (leb 6 (find_free_row t))) [
  | inl full ↦ rw full v
  | inr room ↦
      (let (lo, hi) = next_id_after_in t.next_id v.id_high in
        rw room (
          set-IsValid t (find_free_row t) (new_ticket t rtc slots) (next_id_after t.next_id) _ v
            (new_ticket-IsTicket t rtc slots v clock six) lo hi (omega arith)))
]

-- Closing a ticket keeps the table valid.
pub close_oldest-IsValid :
    (t : Ticketing) (id sec : ℕ) → IsValid t → IsValid (close_oldest t (some id) (some sec)).3
unfolding close_oldest
close_oldest-IsValid t id sec v = elim (Bool-cases (leb 6 (oldest_row t))) [
  | inl none_open ↦ rw none_open v
  | inr found ↦
      (let k = oldest_row t in
        let inside : k < length t.tickets = ground (arith, v.size) in
        let ok = All-get IsTicket t.tickets k inside v.rows in
        rw found (
          set-IsValid t k (record (get_or t.tickets k blank) { active = 0 }) t.next_id
            t.total_entries v
            (record { id_in = ok.id_in; time_in = ok.time_in; hint_in = ok.hint_in }) v.id_low
            v.id_high v.counted))
]
