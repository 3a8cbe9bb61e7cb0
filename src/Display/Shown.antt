-- ===== src/Display/Shown.antt =====
-- What DISPLAY_Task (APP/display/display_task.c) leaves on the two lines of the display, over the bus
-- of MCAL/i2c/i2c.c.
use smart_parking_system_nti.Prelude.{ℕ, ◌<◌, ◌≡◌, ◌≢◌, List, length}
use smart_parking_system_nti.Board.{Board}
use smart_parking_system_nti.Dio.{Dio}
use smart_parking_system_nti.ShiftReg.{ShiftReg}
use smart_parking_system_nti.SlotLeds
use smart_parking_system_nti.SevenSeg
use smart_parking_system_nti.SevenSeg.{SevenSeg}
use smart_parking_system_nti.Lcd.Screen.{Memory}
use smart_parking_system_nti.Lcd.Paint.{Agrees}
use smart_parking_system_nti.Lot.{Lot}
use smart_parking_system_nti.Light.{Light}
use smart_parking_system_nti.Lane.{Lane}
use smart_parking_system_nti.Display.{Panel}
use smart_parking_system_nti.Display.Wire.{IsReady, shown_on}

-- the lamps and the digit leave port C and the wires alone
abbrev Apart : Board → Board → Type 0
Apart b b' = (b'.dio.c ≡ b.dio.c) × (b'.wires ≡ b.wires)

module _ (execute : Memory → List ℕ → Memory) (first : Memory) where
  -- The panel and the board agree: the bus is ready, and the shadow, where it is in use, is what the
  -- display shows.
  pub record InStep (p : Panel) (b : Board) : Type 0 where
    pub ready : IsReady b
    pub rows : length p.lcd.shadow ≡ 2
    pub agrees : p.lcd.valid ≢ 0 → (row : ℕ) → row < 2 → Agrees p.lcd row (shown_on execute first b)
