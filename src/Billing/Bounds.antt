-- ===== src/Billing/Bounds.antt =====
-- The ranges of the totals (APP/billing/billing.c).
use smart_parking_system_nti.Prelude.{ℕ, ◌<◌, Option, some, none, ReturnType, e_ok, e_nok, arith}
use smart_parking_system_nti.SoftRtc.{SoftRtc}
use smart_parking_system_nti.Board.{Board}
use smart_parking_system_nti.Ticketing.{Ticketing}
use smart_parking_system_nti.Ticketing.Valid.{IsValid}
use smart_parking_system_nti.Billing.{Billing, add_revenue, charge, settle}

-- the totals fit their 16 bits
abbrev pub IsBounded : Billing → Type 0
IsBounded l = (l.total_revenue < 65536) × (l.total_exits < 65536)

charge-IsBounded :
    (l : Billing) (rtc : SoftRtc) (b : Board) (id entry : ℕ) → IsBounded (charge l rtc b id entry).0
unfolding charge add_revenue
charge-IsBounded l rtc b id entry = ground arith

-- What follows the call of TKT_CloseOldest keeps the totals in range, and the tickets as the call left
-- them.
pub settle-IsBounded :
    (l : Billing) (rtc : SoftRtc) (b : Board) (r : ReturnType × Option ℕ × Option ℕ × Ticketing)
    → IsBounded l
    → IsValid r.3
    → IsBounded (settle l rtc b r).0 × IsValid (settle l rtc b r).1
unfolding settle
settle-IsBounded l rtc b (e_nok, id, entry, t) low v = (low, v)
settle-IsBounded l rtc b (e_ok, none, entry, t) low v = (low, v)
settle-IsBounded l rtc b (e_ok, some id, none, t) low v = (low, v)
settle-IsBounded l rtc b (e_ok, some id, some entry, t) low v =
    (charge-IsBounded l rtc b id entry, v)
