-- ===== src/Billing.antt =====
-- APP/billing/billing.c: the fee of an exit, the running totals and the receipt. `unsigned int` has
-- 16 bits on the target, so a `uint16` sum wraps before it is divided.
pub mod Fee
pub mod Bounds
pub mod Totals
use smart_parking_system_nti.Prelude.{
  ℕ, ◌+◌, ◌-◌, ◌*◌, ◌/◌, Option, none, some, List, [], ◌∷◌, ◌++◌, if◌then◌else◌, ltb, leb, u16, u32,
  replicate, ReturnType, e_ok, e_nok,
}
use smart_parking_system_nti.Config.{tariff_default, grace_default_minutes, daily_cap}
use smart_parking_system_nti.Text.{codes, decimal, four_digits}
use smart_parking_system_nti.SoftRtc
use smart_parking_system_nti.SoftRtc.{SoftRtc}
use smart_parking_system_nti.Ticketing.{Ticketing, close_oldest, crlf}
use smart_parking_system_nti.Board.{Board}
use smart_parking_system_nti.Board.Usart.{send_string}

-- the module's static variables
pub record Billing : Type 0 where
  pub total_revenue : ℕ
  pub total_exits : ℕ

-- the static initialisers
unfoldable pub boot : Billing
boot = record { total_revenue = 0; total_exits = 0 }

-- `Local_u32DwellSec` and `Local_u16DwellMin`
unfoldable pub dwell_min : ℕ → ℕ → ℕ
dwell_min entry exit = u16 ((if leb entry exit then exit - entry else 0) / 60)

-- `Local_u16ChargeableMin`
unfoldable pub chargeable_min : ℕ → ℕ
chargeable_min dwell =
    if ltb grace_default_minutes dwell then u16 (dwell - grace_default_minutes) else 0

-- `Local_u16Hours`
unfoldable pub hours_of : ℕ → ℕ
unfolding chargeable_min
hours_of dwell = u16 (u16 (chargeable_min dwell + 59) / 60)

-- `Local_u16Fee`
unfoldable pub fee_of : ℕ → ℕ
fee_of hours =
    let fee = u32 (hours * tariff_default) in u16 (if ltb daily_cap fee then daily_cap else fee)

-- the total after a fee, held at 65535
unfoldable pub add_revenue : ℕ → ℕ → ℕ
add_revenue total fee = let sum = u32 (total + fee) in if ltb 0xFFFF sum then 0xFFFF else u16 sum

-- a time on the receipt, or nothing where RTC_Format refuses the buffer
time_text : ℕ → List ℕ
unfolding SoftRtc.format
time_text sec =
    let (s, buf) = SoftRtc.format sec (some (replicate 10 0)) 10 in
    elim s [ e_nok ↦ [] | e_ok ↦ elim buf [ none ↦ [] | some text ↦ text ] ]

unfoldable pub print_receipt : Board → ℕ → ℕ → ℕ → ℕ → ℕ → ℕ → Board
unfolding time_text send_string four_digits decimal
print_receipt b id entry exit dwell hours fee =
    let b1 = send_string b (codes "===== RECEIPT =====" ++ crlf) in
    let b2 = send_string b1 (codes "ID    : ") in
    let b3 = send_string b2 (four_digits id) in
    let b4 = send_string b3 (crlf ++ codes "IN    : ") in
    let b5 = send_string b4 (time_text entry) in
    let b6 = send_string b5 (crlf ++ codes "OUT   : ") in
    let b7 = send_string b6 (time_text exit) in
    let b8 = send_string b7 (crlf ++ codes "DWELL : ") in
    let b9 = send_string b8 (decimal 5 dwell) in
    let b10 = send_string b9 (codes " min") in
    let b11 = send_string b10 (crlf ++ codes "GRACE : ") in
    let b12 = send_string b11 (decimal 5 grace_default_minutes) in
    let b13 = send_string b12 (codes " min") in
    let b14 = send_string b13 (crlf ++ codes "HOURS : ") in
    let b15 = send_string b14 (decimal 5 hours) in
    let b16 = send_string b15 (crlf ++ codes "FEE   : ") in
    let b17 = send_string b16 (decimal 5 fee) in
    send_string b17 (crlf ++ codes "===================" ++ crlf)

-- what is charged for a closed ticket
charge : Billing → SoftRtc → Board → ℕ → ℕ → Billing × Board
unfolding SoftRtc.seconds
charge l rtc b id entry =
    let exit = SoftRtc.seconds rtc in
    let dwell = dwell_min entry exit in
    let hours = hours_of dwell in
    let fee = fee_of hours in
    (
      record {
        total_revenue = add_revenue l.total_revenue fee;
        total_exits = u16 (l.total_exits + 1);
      },
      print_receipt b id entry exit dwell hours fee,
    )

-- what follows the call of `TKT_CloseOldest`, from all that it gives back
unfoldable pub settle :
    Billing
    → SoftRtc
    → Board
    → ReturnType × Option ℕ × Option ℕ × Ticketing
    → Billing × Ticketing × Board
unfolding charge
settle l rtc b (e_nok, id, entry, t) = (l, t, b)
settle l rtc b (e_ok, none, entry, t) = (l, t, b)
settle l rtc b (e_ok, some id, none, t) = (l, t, b)
settle l rtc b (e_ok, some id, some entry, t) =
    let (l', b') = charge l rtc b id entry in (l', t, b')

-- `Local_u16Id` and `Local_u32EntrySec` are uninitialised before the call; 0 stands for what
-- they hold then, which is not read.
unfoldable pub on_exit_authorized :
    Billing → Ticketing → SoftRtc → Board → Billing × Ticketing × Board
unfolding settle
on_exit_authorized l t rtc b = settle l rtc b (close_oldest t (some 0) (some 0))

unfoldable pub clear_stats : Billing → Billing
clear_stats l = record { total_revenue = 0; total_exits = 0 }
