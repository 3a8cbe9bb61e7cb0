-- ===== src/Ticketing/Lines.antt =====
-- The line buffer of TKT_PrintOpenTickets (APP/ticketing/ticketing.c).
use smart_parking_system_nti.Prelude.{◌+◌, ◌<◌, ◌≤◌, arith, ◌++◌, length, length-append}
use smart_parking_system_nti.Text.{codes, decimal}
use smart_parking_system_nti.Text.Decimal.{length-decimal_of_lt}
use smart_parking_system_nti.Ticketing.{Ticket, ticket_line, crlf}

-- The line of a ticket and its NUL fit the 24 bytes of `Local_acLine`, for a number of at most four digits,
-- any 32-bit entry time and a one-digit slot.
pub ticket_line_fits :
    (t : Ticket)
    → t.id < 10000
    → t.entry_sec < 4294967296
    → t.slot_hint < 10
    → length (ticket_line t) + 1 ≤ 24
unfolding ticket_line
ticket_line_fits t hi he hs =
    let a = length-decimal_of_lt 10 4 t.id (omega arith) hi in
    let b = length-decimal_of_lt 10 10 t.entry_sec (omega arith) (omega arith) in
    let c = length-decimal_of_lt 10 1 t.slot_hint (omega arith) hs in
    let d = decimal 10 t.id in
    let e = decimal 10 t.entry_sec in
    let f = decimal 10 t.slot_hint in
    omega (
      arith,
      length-append d (codes "," ++ (e ++ (codes "," ++ (f ++ crlf)))),
      length-append e (codes "," ++ (f ++ crlf)),
      length-append f crlf,
    )
