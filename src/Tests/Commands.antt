-- ===== src/Tests/Commands.antt =====
-- The theorems on the console and the scheduler.
use smart_parking_system_nti.Prelude.{ℕ, ◌≡◌, ◌≢◌, ap, arith, refl, true, some, e_ok}
use smart_parking_system_nti.Text.{codes}
use smart_parking_system_nti.Text.Decimal.{value_from}
use smart_parking_system_nti.Lot.{LotState, operational, maintenance}
use smart_parking_system_nti.Lane.{idle}
use smart_parking_system_nti.Console.{parse_line}
use smart_parking_system_nti.Console.Words.{parse_uint}
use smart_parking_system_nti.Console.Set.{Settings}
use smart_parking_system_nti.Console.Parse.{parse_uint_lem}
use smart_parking_system_nti.Console.Gates.{parse_line-timer1}
use smart_parking_system_nti.Scheduler.{TaskEntry, is_due}
use smart_parking_system_nti.Scheduler.Dispatch.{is_due_lem}
use smart_parking_system_nti.Tests.Fixtures.{site, entry_lane}

abbrev settings : Settings
settings = record { tariff = 10; grace = 15; hold = 5; pass_timeout = 20; light_thresh = 30 }

abbrev is_lot_open : LotState → ℕ
is_lot_open operational = 1
is_lot_open _ = 0

-- 65546 is taken for 10
parse_uint_example : parse_uint (codes "65546") ≡ (e_ok, some 10)
unfolding value_from
parse_uint_example = parse_uint_lem b'6' (codes "5546") (omega arith)

open_differs : operational ≢ maintenance
open_differs e = let one : 1 ≡ 0 = ap is_lot_open e in absurd (omega (arith, one))

parse_line-timer1_example :
    (parse_line settings site
      (entry_lane idle 0 0)
      (entry_lane idle 0 0)
      (some (codes "OPEN IN"))).2.board.timer1
    ≡ site.board.timer1
parse_line-timer1_example =
    parse_line-timer1 settings site (entry_lane idle 0 0) (entry_lane idle 0 0)
      (some (codes "OPEN IN")) open_differs

-- every 5 ticks, from tick 3 on
abbrev task : TaskEntry
task = record { func = 1; period = 5; offset = 2; used = 1 }

is_due_example : is_due 8 task ≡ true
is_due_example = (is_due_lem 3 task (omega arith) (omega arith) refl).0
