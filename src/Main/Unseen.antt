-- ===== src/Main/Unseen.antt =====
-- A maintenance that Task_Lanes of main.c never sees: it begins and ends between two of its calls, in
-- one call of Task_Console.
use smart_parking_system_nti.Prelude.{
  ℕ, ◌≡◌, refl, sym, ap, subst, ◌∙◌, false, ◌==◌, choose, List, [], ◌∷◌, ◌++◌, arith,
}
use smart_parking_system_nti.Config.{servo_open_us, servo_closed_us}
use smart_parking_system_nti.Text.{codes}
use smart_parking_system_nti.Lot.{LotState, is_maintenance, set_maintenance, open_mode}
use smart_parking_system_nti.Console.{find_command}
use smart_parking_system_nti.Console.Words.{match_word, skip_word}
use smart_parking_system_nti.Barrier.Position.{pulse}
use smart_parking_system_nti.Lane.Gate.{gate_pulse}
use smart_parking_system_nti.Main.{System}
use smart_parking_system_nti.Main.Line.{accept, end_line, submit}
use smart_parking_system_nti.Main.Assemble.{feed, holding}
use smart_parking_system_nti.Main.Barriers.{IsAligned}

abbrev pub unseen : List ℕ
unseen =
    codes "MAINT ON"
    ++ (b'\r' ∷ (codes "CLOSE IN" ++ (b'\r' ∷ (codes "MAINT OFF" ++ (b'\r' ∷ [])))))

-- what is left of the maintenance
abbrev Missed : System → System → Type 0
Missed y y' =
    (pulse y'.site.board 0 ≡ servo_closed_us)
    × (y'.entry ≡ y.entry)
    × (y'.exit ≡ y.exit)
    × (y'.glue.in_maintenance ≡ y.glue.in_maintenance)
    × (is_maintenance y'.site.lot.state ≡ false)

open_mode-calm : (free : ℕ) → is_maintenance (open_mode free) ≡ false
open_mode-calm free = choose (λ (m : LotState). is_maintenance m ≡ false) (free == 0) refl refl

Missed-from : (y : System) → Missed y (feed unseen (holding y [] 0))
unfolding feed accept end_line submit pulse set_maintenance find_command match_word skip_word
Missed-from y = (refl, refl, refl, refl, open_mode-calm y.site.lot.free_slots)

-- The three lines MAINT ON, CLOSE IN and MAINT OFF, taken by Task_Console one byte after the other
-- with no other task in between, close the entry barrier although no lane is ever parked: both lanes
-- are as they were, the lot is out of maintenance again, and the program never knew of it. So if it
-- was outside maintenance and the entry lane holds its gate open, the barriers then no longer stand
-- where the states of their lanes want them. It needs an empty line assembler.
pub unseen_close :
    (y : System)
    → y.glue.line ≡ []
    → y.glue.line_overflow ≡ 0
    → let y' = feed unseen y in
      Missed y y'
      × (y.glue.in_maintenance ≡ 0 → gate_pulse y.entry.state ≡ servo_open_us → ¬ IsAligned y')
unfolding pulse
unseen_close y no_line no_overflow =
    let from : y ≡ holding y [] 0 = λ i. holding y (no_line i) (no_overflow i) in
    let missed = subst (λ q. Missed y (feed unseen q)) (sym from) (Missed-from y) in
    (
      missed,
      λ out wide aligned.
          let same = (aligned.0 (missed.3 ∙ out)).0 in
          let closed = sym missed.0 ∙ same ∙ ap (λ ln. gate_pulse ln.state) missed.1 ∙ wide in
          absurd (omega (arith, closed)),
    )
