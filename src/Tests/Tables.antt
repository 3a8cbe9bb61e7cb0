-- ===== src/Tests/Tables.antt =====
-- The theorems on tickets, fees and texts, on the tables of the fixtures.
use smart_parking_system_nti.Prelude.{◌+◌, ◌≡◌, refl, arith, some}
use smart_parking_system_nti.SoftRtc.{stamp}
use smart_parking_system_nti.SoftRtc.Stamp.{read_stamp, read_stamp-stamp}
use smart_parking_system_nti.Ticketing.{open_rows, on_entry_authorized, close_oldest}
use smart_parking_system_nti.Ticketing.Issue.{on_entry_opens}
use smart_parking_system_nti.Ticketing.Oldest.{Closes, close_oldest_lem}
use smart_parking_system_nti.Ticketing.Valid.{IsValid}
use smart_parking_system_nti.Billing.{fee_of, hours_of, on_exit_authorized}
use smart_parking_system_nti.Billing.Fee.{stay_fee}
use smart_parking_system_nti.Billing.Totals.{Exits, on_exit_lem}
use smart_parking_system_nti.Tests.Fixtures.{board, clock, slots, lot, table, takings}

on_entry_opens_example :
    open_rows (on_entry_authorized table clock slots lot board).0.tickets
    ≡ open_rows table.tickets + 1
unfolding open_rows
on_entry_opens_example =
    (on_entry_opens table clock slots lot board refl (omega arith) (omega arith)).4

close_oldest_example : Closes table 0 0 (close_oldest table (some 0) (some 0))
close_oldest_example = close_oldest_lem table 0 0 refl (omega arith)

on_exit_example : Exits takings table clock board (on_exit_authorized takings table clock board)
on_exit_example = on_exit_lem takings table clock board refl (omega arith) (omega arith)

stay_fee_example : fee_of (hours_of 65500) ≡ 0
stay_fee_example = stay_fee 65500 (omega arith)

table-IsValid : IsValid table
table-IsValid = record {
  size = refl;
  id_low = omega arith;
  id_high = omega arith;
  counted = omega arith;
  rows = omega arith;
}

read_stamp-stamp_example : read_stamp (stamp 45296) ≡ 45296
read_stamp-stamp_example = read_stamp-stamp 45296 (omega arith)
