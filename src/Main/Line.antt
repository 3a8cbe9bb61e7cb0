-- ===== src/Main/Line.antt =====
-- Task_Console in main.c: the receive queue drained into lines. The loop runs on fuel; each round
-- takes a byte, so the length of the queue is enough.
use smart_parking_system_nti.Prelude.{
  ℕ, zero, suc, ◌||◌, Option, none, some, [], ◌∷◌, ◌++◌, if◌then◌else◌, ltb, ◌==◌, ◌!=◌, length,
  ReturnType, e_ok, e_nok,
}
use smart_parking_system_nti.Config.{console_max_line}
use smart_parking_system_nti.Text.{codes, c_string}
use smart_parking_system_nti.Ticketing.{crlf}
use smart_parking_system_nti.Board.{Board}
use smart_parking_system_nti.Board.Usart.{receive_byte}
use smart_parking_system_nti.Console.{parse_line}
use smart_parking_system_nti.Main.{System, send}

-- the line is parsed, as the C string in its buffer
unfoldable pub submit : System → System
unfolding parse_line c_string
submit y =
    let (r, g, w) = parse_line y.settings y.site y.entry y.exit (some (c_string y.glue.line)) in
    record y { settings = g; site = w }

-- the end of a line
unfoldable pub end_line : System → System
unfolding submit send
end_line y =
    let y1 =
      if y.glue.line_overflow != 0
      then record y { site = send y.site (codes "ERR LONG" ++ crlf) }
      else if ltb 0 (length y.glue.line)
      then submit y
      else y in
    record y1 { glue = record (y.glue) { line = []; line_overflow = 0 } }

-- one byte received
unfoldable pub accept : System → ℕ → System
unfolding end_line
accept y byte =
    if byte == b'\r' || byte == b'\n'
    then end_line y
    else if ltb (length y.glue.line) console_max_line
    then record y { glue = record (y.glue) { line = y.glue.line ++ (byte ∷ []) } }
    else record y { glue = record (y.glue) { line_overflow = 1 } }

-- one round, from what USART_ReceiveByte gives back; none where the loop ends, with nothing changed
unfoldable pub consumed : System → ReturnType × Option ℕ × Board → Option System
unfolding accept
consumed y (e_ok, some byte, b) =
    some (accept (record y { site = record (y.site) { board = b } }) byte)
consumed y (e_ok, none, b) = none
consumed y (e_nok, byte, b) = none

-- the loop's condition: what is left after it, or the rest of the loop on what the round leaves
unfoldable pub unless_done : System → Option System → (System → System) → System
unless_done y none rest = y
unless_done y (some y') rest = rest y'

unfoldable pub drain : ℕ → System → System
unfolding receive_byte consumed unless_done
drain zero y = y
drain (suc fuel) y = unless_done y (consumed y (receive_byte y.site.board)) (drain fuel)

unfoldable pub task_console : System → System
unfolding drain
task_console y = drain y.site.board.rx.count y
