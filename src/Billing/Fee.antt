-- ===== src/Billing/Fee.antt =====
-- The fee (APP/billing/billing.c) against the default tariff of README section 11.4.
use smart_parking_system_nti.Prelude.{
  ℕ, ◌+◌, ◌-◌, ◌*◌, ◌/◌, ◌%◌, ◌<◌, ◌≤◌, ◌≡◌, arith, if◌then◌else◌, ltb, leb, ◌==◌, Bool-cases, inl,
  inr,
}
use smart_parking_system_nti.Billing.{dwell_min, hours_of, fee_of}

-- the default tariff: 15 minutes free, then 10 units for every started hour, at most 120
pub tariff : ℕ → ℕ
tariff minutes =
    let started = (minutes - 15) / 60 + (if (minutes - 15) % 60 == 0 then 0 else 1) in
    if ltb 120 (started * 10) then 120 else started * 10

-- For every stay of up to 65491 whole minutes, the fee is the tariff's.
pub fee-eq-tariff : (dwell : ℕ) → dwell ≤ 65491 → fee_of (hours_of dwell) ≡ tariff dwell
unfolding hours_of fee_of tariff
fee-eq-tariff dwell h = ground arith

-- Up to that length a longer stay never costs less, and no number of hours costs more than 120.
pub fee_mono :
    (a b hours : ℕ)
    → a ≤ b
    → b ≤ 65491
    → (fee_of (hours_of a) ≤ fee_of (hours_of b)) × (fee_of hours ≤ 120)
unfolding hours_of fee_of
fee_mono a b hours le h = (ground arith, ground arith)

-- For a stay of 65492 to 65535 minutes the 16-bit rounding sum wraps and the fee is nothing.
pub fee_wraps : (dwell : ℕ) → 65492 ≤ dwell → dwell < 65536 → fee_of (hours_of dwell) ≡ 0
unfolding hours_of fee_of
fee_wraps dwell lo hi = ground arith

-- For every stay that 16 bits can count, the fee is that of the default tariff, 15 minutes free and
-- then 10 units for every started hour, at most 120, up to 65491 minutes. Beyond them the 16-bit
-- rounding sum wraps and the fee is nothing. The tariff and the grace that the console sets (README
-- sections 10.3 and 18.2, TC-02) do not enter it: the code takes both from config.h.
pub stay_fee :
    (dwell : ℕ)
    → dwell < 65536
    → fee_of (hours_of dwell) ≡ (if leb dwell 65491 then tariff dwell else 0)
stay_fee dwell lt = elim (Bool-cases (leb dwell 65491)) [
  | inl e ↦ rw e (fee-eq-tariff dwell (ground (arith, e)))
  | inr e ↦ rw e (fee_wraps dwell (ground (arith, e)) lt)
]

-- The dwell time is the whole minutes between the two clock readings, and 0 if the exit reads
-- earlier than the entry; it is exact for stays below 65536 minutes.
pub dwell_min_lem :
    (entry exit : ℕ)
    → (entry ≤ exit → exit - entry < 3932160 → dwell_min entry exit ≡ (exit - entry) / 60)
      × (exit < entry → dwell_min entry exit ≡ 0)
unfolding dwell_min
dwell_min_lem entry exit = ground arith
