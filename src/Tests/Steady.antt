-- ===== src/Tests/Steady.antt =====
-- The theorem on the program while nothing is received, from a start with a display that answers.
use smart_parking_system_nti.Prelude.{◌≡◌, refl, false, [], ◌∷◌, replicate}
use smart_parking_system_nti.Board.I2c
use smart_parking_system_nti.Barrier.{close_barrier}
use smart_parking_system_nti.Slots.{poll, get_map}
use smart_parking_system_nti.Lot.{is_fault, popcount6}
use smart_parking_system_nti.Main.{System}
use smart_parking_system_nti.Main.Boot.{boot}
use smart_parking_system_nti.Main.Drain.{queue}
use smart_parking_system_nti.Main.Loop.{run, ticked, passed, sensed}
use smart_parking_system_nti.Main.Rounds.Steady.{IsSteady, untyped-IsSteady}
use smart_parking_system_nti.Tests.Fixtures.{site}
use smart_parking_system_nti.Tests.Program.{system}

-- the program of the tests with a display that acknowledges every byte
abbrev connected : System
connected =
    let b = system.site.board in
    record system {
      site = record site {
        board = record b { wires = record (b.wires) { answers = replicate 2000 0 } };
      };
    }

connected-Works : is_fault (boot connected).site.lot.state ≡ false
unfolding boot I2c.init I2c.start I2c.stop I2c.write I2c.read_bit I2c.line_release I2c.line_low
    close_barrier poll popcount6 get_map
connected-Works = refl

queue-connected : (queue (boot connected)).count ≡ 0
unfolding boot I2c.init I2c.start I2c.stop I2c.write I2c.read_bit I2c.line_release I2c.line_low
    close_barrier poll popcount6 get_map
queue-connected = refl

untyped-IsSteady_example :
    IsSteady (run (ticked ∷ sensed 251 255 (λ k. 650) ∷ passed ∷ []) (boot connected))
untyped-IsSteady_example =
    untyped-IsSteady (ticked ∷ sensed 251 255 (λ k. 650) ∷ passed ∷ []) connected
      (tt, (tt, (tt, tt))) refl connected-Works queue-connected
