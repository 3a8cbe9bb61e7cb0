-- ===== src/Tests/Panel.antt =====
-- The theorems on the display, the digit, the lamps and the buttons.
use smart_parking_system_nti.Prelude.{
  zero, suc, ◌/◌, ◌≡◌, ◌≢◌, refl, arith, replicate, [], ◌∷◌, some, e_ok, bit, get_or, agree_below,
  all_below,
}
use smart_parking_system_nti.Text.{codes}
use smart_parking_system_nti.SevenSeg
use smart_parking_system_nti.SevenSeg.Digit.{Leaves, show_lem}
use smart_parking_system_nti.SlotLeds
use smart_parking_system_nti.SlotLeds.Compose.{compose_lem}
use smart_parking_system_nti.SlotLeds.Update.{Shows, update_lem}
use smart_parking_system_nti.Buttons.{pressed, unused}
use smart_parking_system_nti.Buttons.Debounce.{after, after_settles}
use smart_parking_system_nti.Lcd.{paint}
use smart_parking_system_nti.Lcd.Screen.{AreBytes}
use smart_parking_system_nti.Lcd.Paint.{Paints, paint_lem}
use smart_parking_system_nti.Tests.Fixtures.{pins, board}
use smart_parking_system_nti.Tests.Glass.{glass_bus, glass-Drives, blank, spaces}

show_example : Leaves 3 pins (SevenSeg.show SevenSeg.boot pins 3)
unfolding SevenSeg.boot
show_example = show_lem SevenSeg.boot pins 3 (omega arith) (λ h. absurd (h refl))

compose_example :
    (bit (SlotLeds.compose 4 1) 4 ≡ 1)
    × (bit (SlotLeds.compose 4 1) 5 ≡ 0)
    × (SlotLeds.compose 4 1 / 4096 ≡ 1)
compose_example = compose_lem 4 2 1 (omega arith) (omega arith)

update_example :
    let (r, l, s, b) =
      SlotLeds.update (record { last = 7; primed = 0 }) (record { shadow = 0 }) board 1 0 in
    (r ≡ e_ok)
    × Shows b (SlotLeds.compose 1 0)
    × (s.shadow ≡ SlotLeds.compose 1 0)
    × (l.last ≡ SlotLeds.compose 1 0)
    × (l.primed ≢ 0)
update_example =
    update_lem (record { last = 7; primed = 0 }) (record { shadow = 0 }) board 1 0 (omega arith)
      (λ h. absurd (h refl))

after_settles_example :
    (after unused (pressed ∷ pressed ∷ pressed ∷ pressed ∷ pressed ∷ pressed ∷ [])).debounced_state
    ≡ pressed
after_settles_example =
    after_settles (pressed ∷ pressed ∷ pressed ∷ pressed ∷ pressed ∷ pressed ∷ []) unused pressed
      (refl, (refl, (refl, (refl, (refl, (refl, _)))))) (omega arith)

in_bytes : AreBytes (codes "IN:OPEN")
in_bytes zero = omega arith
in_bytes (suc zero) = omega arith
in_bytes (suc (suc zero)) = omega arith
in_bytes (suc (suc (suc zero))) = omega arith
in_bytes (suc (suc (suc (suc zero)))) = omega arith
in_bytes (suc (suc (suc (suc (suc zero))))) = omega arith
in_bytes (suc (suc (suc (suc (suc (suc zero)))))) = omega arith
in_bytes (suc (suc (suc (suc (suc (suc (suc k))))))) = omega arith

paint_example :
    Paints glass_bus
      (λ s. s.memory)
      (λ s. Unit {0})
      spaces
      1
      (codes "IN:OPEN")
      blank.memory
      (paint glass_bus spaces blank 1 (some (codes "IN:OPEN")))
unfolding all_below
paint_example =
    paint_lem glass_bus (λ s. s.memory) (λ s. Unit {0}) spaces blank 1 (codes "IN:OPEN")
      glass-Drives tt (omega arith) in_bytes refl
      (λ on k h. agree_below 16 (λ j. get_or (replicate 16 32) j 0) (λ j. 32) refl k h)
