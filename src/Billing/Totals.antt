-- ===== src/Billing/Totals.antt =====
-- What one authorised exit does to the totals, the tickets and the wire.
use Prim.Native.Nat.{min}
use smart_parking_system_nti.Prelude.{
  ℕ, ◌+◌, ◌<◌, ◌≡◌, refl, sym, subst, arith, length, get_or, set, ◌⊎◌, inl, inr, u16, some,
  ReturnType, Option,
}
use smart_parking_system_nti.SoftRtc
use smart_parking_system_nti.SoftRtc.{SoftRtc}
use smart_parking_system_nti.Board.{Board}
use smart_parking_system_nti.Ticketing.{Ticketing, blank, open_rows, close_oldest}
use smart_parking_system_nti.Ticketing.Oldest.{AllEarlier, IsOldest, Closes, close_oldest_lem}
use smart_parking_system_nti.Billing.{
  Billing, dwell_min, hours_of, fee_of, add_revenue, print_receipt, settle, on_exit_authorized,
}

-- The revenue saturates: it is the sum, or 65535 where the sum is larger.
pub add_revenue-eq-min :
    (total fee : ℕ) → total < 65536 → fee < 65536 → add_revenue total fee ≡ min 65535 (total + fee)
unfolding add_revenue
add_revenue-eq-min total fee ht hf = ground arith

fee-lt : (hours : ℕ) → fee_of hours < 65536
unfolding fee_of
fee-lt hours = ground arith

-- what an exit that closes row `k` leaves
abbrev pub Charged :
    Billing → Ticketing → SoftRtc → Board → ℕ → Billing × Ticketing × Board → Type 0
Charged l t rtc b k (l', t', b') =
    let row = get_or t.tickets k blank in
    let dwell = dwell_min row.entry_sec (SoftRtc.seconds rtc) in
    let fee = fee_of (hours_of dwell) in
    (t'.tickets ≡ set t.tickets k (record row { active = 0 }))
    × (l'.total_revenue ≡ min 65535 (l.total_revenue + fee))
    × (l'.total_exits ≡ u16 (l.total_exits + 1))
    × (b' ≡ print_receipt b row.id row.entry_sec (SoftRtc.seconds rtc) dwell (hours_of dwell) fee)

-- the two ways in which an exit can end
abbrev pub Exits : Billing → Ticketing → SoftRtc → Board → Billing × Ticketing × Board → Type 0
Exits l t rtc b r =
    ((open_rows t.tickets ≡ 0) × (r ≡ (l, t, b)))
    ⊎ ((k : ℕ) × IsOldest t.tickets k × Charged l t rtc b k r)

Exits-of :
    (l : Billing) (t : Ticketing) (rtc : SoftRtc) (b : Board)
    (r : ReturnType × Option ℕ × Option ℕ × Ticketing)
    → l.total_revenue < 65536
    → Closes t 0 0 r
    → Exits l t rtc b (settle l rtc b r)
unfolding settle
Exits-of l t rtc b r paid (inl (idle, e, i, s, same)) =
    inl (idle, λ k. settle l rtc b (e k, i k, s k, same k))
Exits-of l t rtc b r paid (inr (k, old, e, i, s, rows, next, entries, fewer)) = inr (
  k,
  old,
  subst (Charged l t rtc b k) (λ j. settle l rtc b (sym e j, sym i j, sym s j, r.3))
      (rows, add_revenue-eq-min l.total_revenue _ paid (fee-lt _), refl, refl),
)

-- With every entry time below the sentinel of the scan, an exit with no ticket open changes nothing
-- and prints nothing. Any other exit closes an open ticket that no open ticket precedes, charges the
-- fee for the time since its entry to a revenue that saturates at 65535, counts the exit modulo
-- 2^16 and prints the receipt.
pub on_exit_lem :
    (l : Billing) (t : Ticketing) (rtc : SoftRtc) (b : Board)
    → length t.tickets ≡ 6
    → AllEarlier t.tickets
    → l.total_revenue < 65536
    → Exits l t rtc b (on_exit_authorized l t rtc b)
unfolding on_exit_authorized
on_exit_lem l t rtc b size early paid =
    Exits-of l t rtc b (close_oldest t (some 0) (some 0)) paid (close_oldest_lem t 0 0 size early)
