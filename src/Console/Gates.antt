-- ===== src/Console/Gates.antt =====
-- The barriers under the command line (APP/console/console.c).
use smart_parking_system_nti.Prelude.{arith, ℕ, ◌≡◌, ◌≢◌, refl, true, Option, List}
use smart_parking_system_nti.Site.{Site}
use smart_parking_system_nti.Lane.{Lane}
use smart_parking_system_nti.Board.Usart.{send_string}
use smart_parking_system_nti.Lot.{
  LotState, initial, operational, full, fault, maintenance, is_maintenance,
}
use smart_parking_system_nti.Console.{parse_line}
use smart_parking_system_nti.Console.Keeps.{parse_line-keeps}
use smart_parking_system_nti.Console.Set.{Settings}

is_maintenance_sound : (m : LotState) → is_maintenance m ≡ true → m ≡ maintenance
is_maintenance_sound maintenance h = refl
is_maintenance_sound initial h = absurd (ground arith)
is_maintenance_sound operational h = absurd (ground arith)
is_maintenance_sound full h = absurd (ground arith)
is_maintenance_sound fault h = absurd (ground arith)

-- Outside maintenance no line that is typed moves a barrier: the servo timer is left as it is.
pub parse_line-timer1 :
    (g : Settings) (w : Site) (entry exit : Lane) (line : Option (List ℕ))
    → w.lot.state ≢ maintenance
    → (parse_line g w entry exit line).2.board.timer1 ≡ w.board.timer1
unfolding send_string
parse_line-timer1 g w entry exit line m =
    parse_line-keeps (λ b. b.timer1 ≡ w.board.timer1) (λ b text p. p) g w entry exit line
      (λ on. absurd (m (is_maintenance_sound w.lot.state on))) refl
