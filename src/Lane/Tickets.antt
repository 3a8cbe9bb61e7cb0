-- ===== src/Lane/Tickets.antt =====
-- The calls of LANE_Run on the tickets and the billing (APP/lane/lane_fsm.c).
use Prim.Native.Nat.{min}
use smart_parking_system_nti.Prelude.{
  ℕ, ◌+◌, ◌≤◌, ◌<◌, ◌≡◌, ◌≢◌, refl, sym, subst, ap, arith, length, get_or, set, u16, ◌⊎◌, inl, inr,
}
use smart_parking_system_nti.Lot.{can_authorise_entry}
use smart_parking_system_nti.Site.{Site}
use smart_parking_system_nti.SoftRtc
use smart_parking_system_nti.Board.{Board}
use smart_parking_system_nti.Ticketing.{Ticketing, blank, on_entry_authorized, open_rows}
use smart_parking_system_nti.Ticketing.Issue.{on_entry_opens, on_entry_full}
use smart_parking_system_nti.Ticketing.Oldest.{AllEarlier, IsOldest}
use smart_parking_system_nti.Billing.{Billing, dwell_min, hours_of, fee_of, on_exit_authorized}
use smart_parking_system_nti.Billing.Totals.{Exits, on_exit_lem}
use smart_parking_system_nti.Lane.{
  LaneState, idle, authorising, gate_opening, rejected, Lane, run, dispatch, bar_close, buz_off,
  buz_beep,
}

-- the tickets and the totals are as they were
abbrev pub Unsettled : Site → Site → Type 0
Unsettled w w' = (w'.tickets ≡ w.tickets) × (w'.billing ≡ w.billing)

unsettled :
    (st : LaneState) (w : Site) (ln : Lane)
    → ln.state ≡ st
    → st ≢ authorising
    → Unsettled w (dispatch st w ln).0
unfolding dispatch bar_close buz_off buz_beep
unsettled authorising w ln e h = absurd (h refl)
unsettled idle w ln e h = ground arith
unsettled _ w ln e h = ground arith

-- Outside LN_AUTHORISING a lane touches neither the tickets nor the totals. In it an exit lane calls
-- BIL_OnExitAuthorized and opens; an entry lane with the authority of the lot calls
-- TKT_OnEntryAuthorized and opens, and without it is rejected with nothing registered.
pub run_settles :
    (w : Site) (ln : Lane)
    → let (w', ln') = run w ln in
      (ln.state ≢ authorising → Unsettled w w')
      × (ln.state ≡ authorising
          → ln.is_entry ≡ 0
          → let (l, t, b) = on_exit_authorized w.billing w.tickets w.rtc w.board in
            (w'.billing ≡ l) × (w'.tickets ≡ t) × (ln'.state ≡ gate_opening))
      × (ln.state ≡ authorising
          → ln.is_entry ≢ 0
          → can_authorise_entry w.lot ≢ 0
          → (w'.tickets ≡ (on_entry_authorized w.tickets w.rtc w.slots w.lot w.board).0)
            × (w'.billing ≡ w.billing)
            × (ln'.state ≡ gate_opening))
      × (ln.state ≡ authorising
          → ln.is_entry ≢ 0
          → can_authorise_entry w.lot ≡ 0
          → Unsettled w w' × (ln'.state ≡ rejected))
unfolding run
run_settles w ln = (
  unsettled ln.state w ln refl,
  λ a e. ground arith,
  λ a e g. ground arith,
  λ a e g. ground arith,
)

-- what an exit leaves: all as it was with no ticket open; else an open ticket that no open ticket
-- precedes is closed, its fee added to a revenue that saturates, and the exit counted
abbrev pub IsSettled : Site → Billing → Ticketing → Type 0
IsSettled w l' t' =
    let rows = w.tickets.tickets in
    let entered : ℕ → ℕ = λ k. (get_or rows k blank).entry_sec in
    let fee : ℕ → ℕ = λ k. fee_of (hours_of (dwell_min (entered k) (SoftRtc.seconds w.rtc))) in
    ((open_rows rows ≡ 0) × (l' ≡ w.billing) × (t' ≡ w.tickets))
    ⊎ ((k : ℕ) × IsOldest rows k
        × (t'.tickets ≡ set rows k (record (get_or rows k blank) { active = 0 }))
        × (l'.total_revenue ≡ min 65535 (w.billing.total_revenue + fee k))
        × (l'.total_exits ≡ u16 (w.billing.total_exits + 1)))

IsSettled-of :
    (w : Site) (r : Billing × Ticketing × Board)
    → Exits w.billing w.tickets w.rtc w.board r
    → IsSettled w r.0 r.1
IsSettled-of w r (inl (none_open, same)) =
    inl (none_open, ap (λ r'. r'.0) same, ap (λ r'. r'.1) same)
IsSettled-of w r (inr (k, old, c)) = inr (k, old, c.0, c.1, c.2)

-- what an entry registers: one more open ticket and one more entry if a row is free, else nothing
abbrev pub IsEntered : Site → Ticketing → Type 0
IsEntered w t' =
    (open_rows w.tickets.tickets < 6
      → (open_rows t'.tickets ≡ open_rows w.tickets.tickets + 1)
        × (t'.total_entries ≡ u16 (w.tickets.total_entries + 1)))
    × (open_rows w.tickets.tickets ≡ 6 → t' ≡ w.tickets)

IsEntered-entry :
    (w : Site)
    → length w.tickets.tickets ≡ 6
    → w.tickets.next_id ≤ 9999
    → IsEntered w (on_entry_authorized w.tickets w.rtc w.slots w.lot w.board).0
IsEntered-entry w size ids = (
  λ room.
      let opened = on_entry_opens w.tickets w.rtc w.slots w.lot w.board size room ids in
      (opened.4, opened.6),
  λ taken. ap (λ r. r.0) (on_entry_full w.tickets w.rtc w.slots w.lot w.board size taken),
)

-- With six ticket rows, their entry times below the sentinel of the scan, and the revenue and the next
-- number in range, this is what a call of LANE_Run registers. Outside LN_AUTHORISING nothing changes in
-- the tickets and the totals. In it an exit lane opens always: with no ticket open nothing changes,
-- else an oldest open ticket is closed, its fee added to the revenue, which saturates at 65535, and
-- the exit counted modulo 2^16. An entry lane with the authority of the lot opens always and leaves
-- the totals: with a row free one more ticket is open and one more entry counted modulo 2^16, with
-- none free the tickets stay. Without that authority the entry lane is rejected and nothing changes.
pub run_registers :
    (w : Site) (ln : Lane)
    → length w.tickets.tickets ≡ 6
    → AllEarlier w.tickets.tickets
    → w.billing.total_revenue < 65536
    → w.tickets.next_id ≤ 9999
    → let (w', ln') = run w ln in
      (ln.state ≢ authorising → Unsettled w w')
      × (ln.state ≡ authorising
          → ln.is_entry ≡ 0
          → IsSettled w w'.billing w'.tickets × (ln'.state ≡ gate_opening))
      × (ln.state ≡ authorising
          → ln.is_entry ≢ 0
          → can_authorise_entry w.lot ≢ 0
          → IsEntered w w'.tickets × (w'.billing ≡ w.billing) × (ln'.state ≡ gate_opening))
      × (ln.state ≡ authorising
          → ln.is_entry ≢ 0
          → can_authorise_entry w.lot ≡ 0
          → Unsettled w w' × (ln'.state ≡ rejected))
run_registers w ln size early paid ids =
    let (other, exit, entry, refused) = run_settles w ln in
    (
      other,
      λ a e.
          let (bill, ticket, opens) = exit a e in
          let settled =
            IsSettled-of w (on_exit_authorized w.billing w.tickets w.rtc w.board)
              (on_exit_lem w.billing w.tickets w.rtc w.board size early paid) in
          (
            subst (λ l. IsSettled w l (run w ln).0.tickets) (sym bill)
                (subst (IsSettled w (on_exit_authorized w.billing w.tickets w.rtc w.board).0)
                  (sym ticket) settled),
            opens,
          ),
      λ a e g.
          let (ticket, bill, opens) = entry a e g in
          (subst (IsEntered w) (sym ticket) (IsEntered-entry w size ids), bill, opens),
      refused,
    )
