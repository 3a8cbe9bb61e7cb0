-- ===== src/Site.antt =====
-- The state that the lane logic shares: the board and the modules that lane_fsm.c calls, each with
-- its static variables.
use smart_parking_system_nti.SoftRtc.{SoftRtc}
use smart_parking_system_nti.Board.{Board}
use smart_parking_system_nti.Buzzer.{Buzzer}
use smart_parking_system_nti.Slots.{Slots}
use smart_parking_system_nti.Lot.{Lot}
use smart_parking_system_nti.Ticketing.{Ticketing}
use smart_parking_system_nti.Billing.{Billing}

pub record Site : Type 0 where
  pub board : Board
  pub rtc : SoftRtc
  pub buzzer : Buzzer
  pub slots : Slots
  pub lot : Lot
  pub tickets : Ticketing
  pub billing : Billing
