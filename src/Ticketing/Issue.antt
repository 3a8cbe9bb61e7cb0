-- ===== src/Ticketing/Issue.antt =====
-- TKT_OnEntryAuthorized on the ticket table (APP/ticketing/ticketing.c).
use smart_parking_system_nti.Prelude.{
  ℕ, ◌+◌, ◌*◌, ◌/◌, ◌%◌, ◌<◌, ◌≤◌, ◌≡◌, refl, sym, ◌∙◌, arith, length, set, get_or, if◌then◌else◌,
  ltb, leb, ◌==◌, u16, bit, all_below, agree_below, true, false, flag, ◌||◌,
}
use smart_parking_system_nti.SoftRtc
use smart_parking_system_nti.SoftRtc.{SoftRtc}
use smart_parking_system_nti.Slots
use smart_parking_system_nti.Slots.{Slots}
use smart_parking_system_nti.Lot.{Lot}
use smart_parking_system_nti.Board.{Board}
use smart_parking_system_nti.Ticketing.{
  Ticketing, blank, find_free_row, open_rows, new_ticket, next_id_after, on_entry_authorized,
  print_entry_frame, find_nearest_free_slot,
}
use smart_parking_system_nti.Ticketing.Table.{open_rows-fill, find_free_row_lem, find_free_row_full}

-- map and slot as one number below 6 * 64
is_nearest : ℕ → ℕ → ℕ → ℕ
is_nearest r map j =
    if leb r 6
    then (if j + 1 == r
        then flag (bit map j == 0)
        else if r == 0 || ltb (j + 1) r
        then flag (bit map j == 1)
        else 1)
    else 0

nearest_ok : ℕ → ℕ → ℕ
unfolding is_nearest
nearest_ok map j = is_nearest (find_nearest_free_slot map) map j

nearest_table : all_below 384 (λ q. nearest_ok (q / 6) (q % 6) == 1) ≡ true
unfolding all_below nearest_ok find_nearest_free_slot
nearest_table = refl

nearest_at : (map j : ℕ) → map < 64 → j < 6 → nearest_ok map j ≡ 1
nearest_at map j hm hj =
    let q = map * 6 + j in
    let high : q / 6 ≡ map = omega arith in
    let low : q % 6 ≡ j = omega arith in
    let at_q =
      agree_below 384 (λ x. nearest_ok (x / 6) (x % 6)) (λ x. 1) nearest_table q (omega arith) in
    sym (λ k. nearest_ok (high k) (low k)) ∙ at_q

is_nearest_lem :
    (r map j : ℕ)
    → is_nearest r map j ≡ 1
    → (r ≤ 6) × (j + 1 ≡ r → bit map j ≡ 0) × (j + 1 < r → bit map j ≡ 1) × (r ≡ 0 → bit map j ≡ 1)
unfolding is_nearest
is_nearest_lem r map j ok = ground arith

-- The slot suggested is the lowest-numbered free one: slot `r` is free and every slot below it is
-- occupied, and the suggestion is 0 only if all six are occupied.
pub find_nearest_free_slot_lem :
    (map j : ℕ)
    → map < 64
    → j < 6
    → let r = find_nearest_free_slot map in
      (r ≤ 6) × (j + 1 ≡ r → bit map j ≡ 0) × (j + 1 < r → bit map j ≡ 1) × (r ≡ 0 → bit map j ≡ 1)
unfolding nearest_ok
find_nearest_free_slot_lem map j hm hj =
    is_nearest_lem (find_nearest_free_slot map) map j (nearest_at map j hm hj)

pub next_id_after_in : (id : ℕ) → id ≤ 9999 → (1 ≤ next_id_after id) × (next_id_after id ≤ 9999)
unfolding next_id_after
next_id_after_in id h = ground arith

next_id_after_lem : (id : ℕ) → id ≤ 9999 → next_id_after id ≡ id % 9999 + 1
unfolding next_id_after
next_id_after_lem id h = ground arith

-- With a row free, an authorised entry puts one new ticket into an empty row and leaves the other
-- rows alone: the ticket has the next number, the clock's time and the suggested slot. One more
-- ticket is then open, the number moves on from 1 to 9999 and round to 1, the entry is counted
-- modulo 2^16, and the ticket is printed.
pub on_entry_opens :
    (t : Ticketing) (rtc : SoftRtc) (slots : Slots) (lot : Lot) (b : Board)
    → length t.tickets ≡ 6
    → open_rows t.tickets < 6
    → t.next_id ≤ 9999
    → let (t', b') = on_entry_authorized t rtc slots lot b in
      let opened = new_ticket t rtc slots in
      ((row : ℕ) × (row < 6)
        × ((get_or t.tickets row blank).active ≡ 0)
        × (t'.tickets ≡ set t.tickets row opened))
      × (opened.id ≡ t.next_id)
      × (opened.entry_sec ≡ SoftRtc.seconds rtc)
      × (opened.slot_hint ≡ find_nearest_free_slot (Slots.get_map slots))
      × (open_rows t'.tickets ≡ open_rows t.tickets + 1)
      × (t'.next_id ≡ t.next_id % 9999 + 1)
      × (t'.total_entries ≡ u16 (t.total_entries + 1))
      × (b' ≡ print_entry_frame b opened lot.free_slots)
unfolding on_entry_authorized new_ticket
on_entry_opens t rtc slots lot b size room ids =
    let (row_in, empty) = find_free_row_lem t size room in
    let row = find_free_row t in
    let opened = new_ticket t rtc slots in
    let filled = open_rows-fill t.tickets row opened (omega arith) empty (omega arith) in
    let granted : leb 6 row ≡ false = ground arith in
    rw granted (
      (row, row_in, empty, refl),
      refl,
      refl,
      refl,
      filled,
      next_id_after_lem t.next_id ids,
      refl,
      refl,
    )

-- With every row taken it does nothing at all: no ticket, no count, no print.
pub on_entry_full :
    (t : Ticketing) (rtc : SoftRtc) (slots : Slots) (lot : Lot) (b : Board)
    → length t.tickets ≡ 6
    → open_rows t.tickets ≡ 6
    → on_entry_authorized t rtc slots lot b ≡ (t, b)
unfolding on_entry_authorized
on_entry_full t rtc slots lot b size taken = ground (arith, find_free_row_full t)
