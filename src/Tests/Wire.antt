-- ===== src/Tests/Wire.antt =====
-- The theorems on the display at the end of its two wires.
use smart_parking_system_nti.Prelude.{ℕ, ◌≡◌, refl, arith, replicate, [], ◌∷◌, e_ok}
use smart_parking_system_nti.Lcd
use smart_parking_system_nti.Lcd.{Bus, Lcd, transaction, send_command, write_char, paint}
use smart_parking_system_nti.Board.{Board}
use smart_parking_system_nti.Board.I2c.Lines.{Answers}
use smart_parking_system_nti.Board.I2c.Receiver.{heard}
use smart_parking_system_nti.Display.{Panel, i2c_bus}
use smart_parking_system_nti.Display.Wire.{IsReady, frame, frames_of, transaction_lem}
use smart_parking_system_nti.Display.Shown.{InStep}
use smart_parking_system_nti.Display.Start.{init-InStep}
use smart_parking_system_nti.Tests.Fixtures.{board}
use smart_parking_system_nti.Tests.Glass.{obey, blank}

-- a board whose two lines are let go, and one at reset; the display answers on both
abbrev wired : ℕ → Board
wired pulled = record board {
  dio = record (board.dio) { c = record { ddr = 0; port = pulled; pin = 0xF9 } };
}

answering : (pulled : ℕ) → Answers (wired pulled)
answering pulled = record { zeros = tt; pin_byte = omega arith; shown = refl }

wired-IsReady : IsReady (wired 3)
unfolding heard
wired-IsReady = record {
  shift = 0;
  count = 0;
  bytes = [];
  frames = [];
  hears = record {
    heard_all = refl;
    holds = record {
      ddr_byte = omega arith;
      port_byte = omega arith;
      scl_level = omega arith;
      sda_level = omega arith;
      scl_ddr = refl;
      scl_port = refl;
      sda_ddr = refl;
      sda_port = refl;
    };
    answers = answering 3;
  };
}

transaction_example :
    let (r, b') = transaction i2c_bus (wired 3) 64 65 in
    (r ≡ e_ok) × (frames_of b' ≡ frame 64 65 ∷ frames_of (wired 3)) × IsReady b'
transaction_example = transaction_lem (wired 3) 64 65 (omega arith) (omega arith) wired-IsReady

abbrev panel : Panel
panel = record {
  chain = record { shadow = 0 };
  leds = record { last = 7; primed = 0 };
  digit = record { shadow = 15; primed = 0 };
  lcd = record { shadow = replicate 16 0 ∷ replicate 16 0 ∷ []; valid = 0 };
}

init-InStep_example :
    let (r, d, b') = Lcd.init i2c_bus panel.lcd (wired 0) in
    (r ≡ e_ok)
    × (frames_of b'
        ≡ (0x7C ∷ 0 ∷ 0x0C ∷ [])
          ∷ (0x7C ∷ 0 ∷ 0x06 ∷ [])
          ∷ (0x7C ∷ 0 ∷ 0x01 ∷ [])
          ∷ (0x7C ∷ 0 ∷ 0x08 ∷ [])
          ∷ (0x7C ∷ 0 ∷ 0x38 ∷ [])
          ∷ (0x7C ∷ 0 ∷ 0x38 ∷ [])
          ∷ (0x7C ∷ 0 ∷ 0x38 ∷ [])
          ∷ [])
    × (d.valid ≡ 0)
    × InStep obey blank.memory (record panel { lcd = d }) b'
init-InStep_example =
    init-InStep obey blank.memory panel (wired 0)
      (record {
        unheard = refl;
        ddr_byte = omega arith;
        port_byte = omega arith;
        scl_in = refl;
        sda_in = refl;
        answers = answering 0;
      })
      refl
