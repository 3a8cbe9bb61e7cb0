-- ===== src/Main/Sound/Typed.antt =====
-- What is typed at the console (APP/console/console.c and Task_Console in main.c) keeps the program's
-- data in their ranges.
use smart_parking_system_nti.Prelude.{
  ℕ, zero, suc, ◌==◌, ◌||◌, ltb, ◌!=◌, choose, choose_on, Option, some, none, [], ◌∷◌, length,
  length-append, ReturnType, e_ok, e_nok, arith,
}
use smart_parking_system_nti.Text.{c_string}
use smart_parking_system_nti.Board.{Board}
use smart_parking_system_nti.Board.Usart.{send_string, receive_byte}
use smart_parking_system_nti.Console.Sound.{parse_line-IsSiteSound}
use smart_parking_system_nti.Console.Ranges.{parse_line-IsInRange}
use smart_parking_system_nti.Main.{System, send}
use smart_parking_system_nti.Main.Line.{
  submit, end_line, accept, consumed, unless_done, drain, task_console,
}
use smart_parking_system_nti.Main.Sound.Tasks.{IsSound}

submit-IsSound : (y : System) → IsSound y → IsSound (submit y)
unfolding submit
submit-IsSound y (v, set, entry, exit, line) =
    let text = some (c_string y.glue.line) in
    (
      parse_line-IsSiteSound y.settings y.site y.entry y.exit text v,
      parse_line-IsInRange y.settings y.site y.entry y.exit text set,
      entry,
      exit,
      line,
    )

end_line-IsSound : (y : System) → IsSound y → IsSound (end_line y)
unfolding end_line send send_string
end_line-IsSound y s =
    let (v, set, entry, exit, line) =
      choose IsSound (y.glue.line_overflow != 0) s
        (choose IsSound (ltb 0 (length y.glue.line)) (submit-IsSound y s) s) in
    (v, set, entry, exit, omega arith)

accept-IsSound : (y : System) (byte : ℕ) → IsSound y → IsSound (accept y byte)
unfolding accept
accept-IsSound y byte (v, set, entry, exit, line) =
    choose IsSound (byte == b'\r' || byte == b'\n') (end_line-IsSound y (v, set, entry, exit, line))
      (choose_on IsSound (ltb (length y.glue.line) 24)
        (λ room. (v, set, entry, exit, ground (arith, length-append y.glue.line (byte ∷ []))))
        (v, set, entry, exit, line))

-- what is left after a round
AllSound : Option System → Type 0
AllSound none = Unit {0}
AllSound (some y) = IsSound y

consumed-IsSound :
    (y : System) (r : ReturnType × Option ℕ × Board) → IsSound y → AllSound (consumed y r)
unfolding consumed AllSound
consumed-IsSound y (e_ok, some byte, b) s =
    accept-IsSound (record y { site = record (y.site) { board = b } }) byte s
consumed-IsSound y (e_ok, none, b) s = tt
consumed-IsSound y (e_nok, byte, b) s = tt

unless_done-IsSound :
    (y : System) (r : Option System) (rest : System → System)
    → IsSound y
    → AllSound r
    → ((y' : System) → IsSound y' → IsSound (rest y'))
    → IsSound (unless_done y r rest)
unfolding unless_done AllSound
unless_done-IsSound y none rest s left keeps = s
unless_done-IsSound y (some y') rest s left keeps = keeps y' left

drain-IsSound : (fuel : ℕ) (y : System) → IsSound y → IsSound (drain fuel y)
unfolding drain
drain-IsSound zero y s = s
drain-IsSound (suc fuel) y s =
    let r = receive_byte y.site.board in
    unless_done-IsSound y (consumed y r) (drain fuel) s (consumed-IsSound y r s)
      (drain-IsSound fuel)

pub console-IsSound : (y : System) → IsSound y → IsSound (task_console y)
unfolding task_console
console-IsSound y s = drain-IsSound y.site.board.rx.count y s
