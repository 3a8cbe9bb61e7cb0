-- ===== src/Console/Ranges.antt =====
-- The ranges of the settings (CONSOLE_ApplySetting in APP/console/console.c).
use smart_parking_system_nti.Prelude.{
  ℕ, ◌≤◌, ◌<◌, Bool-cases, inl, inr, Option, none, some, List, ReturnType, e_ok, e_nok, arith, ltb,
  u8, length,
}
use smart_parking_system_nti.Board.{Board}
use smart_parking_system_nti.Site.{Site}
use smart_parking_system_nti.Lane.{Lane}
use smart_parking_system_nti.Text.{codes}
use smart_parking_system_nti.Console.{Command, setting, handle, parse_line, find_command, commands}
use smart_parking_system_nti.Console.Words.{match_word, skip_word, parse_uint}
use smart_parking_system_nti.Console.Set.{Settings, apply_setting, apply_parsed, handle_set}

-- the ranges of README section 18.2
abbrev pub IsInRange : Settings → Type 0
IsInRange g =
    ((1 ≤ g.tariff) × (g.tariff ≤ 100))
    × (g.grace ≤ 60)
    × ((2 ≤ g.hold) × (g.hold ≤ 15))
    × ((10 ≤ g.pass_timeout) × (g.pass_timeout ≤ 60))
    × (g.light_thresh ≤ 100)

apply_parsed-within :
    (b : Board) (p : ReturnType × Option ℕ) (target low high : ℕ)
    → high < 256
    → low ≤ target
    → target ≤ high
    → (low ≤ (apply_parsed b p target low high).0) × ((apply_parsed b p target low high).0 ≤ high)
unfolding apply_parsed apply_setting
apply_parsed-within b (e_ok, some value) target low high byte l h = ground arith
apply_parsed-within b (e_ok, none) target low high byte l h = (l, h)
apply_parsed-within b (e_nok, p) target low high byte l h = (l, h)

handle_set-IsInRange :
    (g : Settings) (b : Board) (args : List ℕ) → IsInRange g → IsInRange (handle_set g b args).0
unfolding handle_set
handle_set-IsInRange g b args v =
    let p = parse_uint (skip_word args) in
    let (t, r, h, o, i) = v in
    let t' = apply_parsed-within b p g.tariff 1 100 (omega arith) t.0 t.1 in
    let r' = apply_parsed-within b p g.grace 0 60 (omega arith) (omega arith) r in
    let h' = apply_parsed-within b p g.hold 2 15 (omega arith) h.0 h.1 in
    let o' = apply_parsed-within b p g.pass_timeout 10 60 (omega arith) o.0 o.1 in
    let i' = apply_parsed-within b p g.light_thresh 0 100 (omega arith) (omega arith) i in
    let word = match_word args in
    elim (Bool-cases (word (codes "TARIFF"))) [
      | inl e ↦ rw e (t', r, h, o, i)
      | inr e ↦ rw e (elim (Bool-cases (word (codes "GRACE"))) [
        | inl e ↦ rw e (t, r'.1, h, o, i)
        | inr e ↦ rw e (elim (Bool-cases (word (codes "HOLD"))) [
          | inl e ↦ rw e (t, r, h', o, i)
          | inr e ↦ rw e (elim (Bool-cases (word (codes "TIMEOUT"))) [
            | inl e ↦ rw e (t, r, h, o', i)
            | inr e ↦ rw e (elim (Bool-cases (word (codes "LIGHT"))) [
              | inl e ↦ rw e (t, r, h, o, i'.1)
              | inr e ↦ rw e v
            ])
          ])
        ])
      ])
    ]

handle-IsInRange :
    (c : Option Command) (g : Settings) (w : Site) (entry exit : Lane) (args : List ℕ)
    → IsInRange g
    → IsInRange (handle c g w entry exit args).0
unfolding handle
handle-IsInRange none g w entry exit args v = v
handle-IsInRange (some setting) g w entry exit args v = handle_set-IsInRange g w.board args v
handle-IsInRange (some _) g w entry exit args v = v

-- Whatever line is typed, every setting stays in the range that README section 18.2 gives for it.
pub parse_line-IsInRange :
    (g : Settings) (w : Site) (entry exit : Lane) (line : Option (List ℕ))
    → IsInRange g
    → IsInRange (parse_line g w entry exit line).1
unfolding parse_line
parse_line-IsInRange g w entry exit none v = v
parse_line-IsInRange g w entry exit (some line) v =
    let h = handle-IsInRange (find_command commands line) g w entry exit (skip_word line) v in
    elim (Bool-cases (ltb 24 (u8 (length line)))) [ inl e ↦ rw e v | inr e ↦ rw e h ]
