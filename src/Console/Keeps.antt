-- ===== src/Console/Keeps.antt =====
-- What every handler of APP/console/console.c keeps of the board: all that sending a text keeps and
-- that moving a barrier in maintenance keeps.
use smart_parking_system_nti.Prelude.{
  ℕ, ◌≡◌, choose, choose_on, true, Option, none, some, List, [], ◌∷◌, ltb, u8, length, ◌==◌, ◌++◌,
  ◌||◌, if◌then◌else◌, ReturnType, e_ok, e_nok,
}
use smart_parking_system_nti.Site.{Site}
use smart_parking_system_nti.Lane.{Lane}
use smart_parking_system_nti.Text.{codes, decimal}
use smart_parking_system_nti.Slots.{get_map}
use smart_parking_system_nti.Board.{Board}
use smart_parking_system_nti.Board.Usart.{send_string}
use smart_parking_system_nti.Telemetry
use smart_parking_system_nti.Barrier.{open_barrier, close_barrier}
use smart_parking_system_nti.Ticketing.{Ticket, crlf, ticket_line, print_rows, print_open_tickets}
use smart_parking_system_nti.Lot.{Lot, is_maintenance, set_maintenance}
use smart_parking_system_nti.Console.{
  Command, status, slots, free, stats, clr_stats, help, tickets, setting, opening, closing, maint,
  handle, handle_open, handle_close, handle_maint, handle_status, handle_tickets, handle_slots,
  handle_free, handle_stats, handle_clr_stats, handle_help, parse_line, find_command, commands, say,
  slots_line,
}
use smart_parking_system_nti.Console.Words.{match_word, skip_word, parse_uint}
use smart_parking_system_nti.Console.Set.{
  Settings, handle_set, apply_parsed, apply_setting, send_line,
}

module _ (P : Board → Type 0)
    (sends : (b : Board) (text : List ℕ) → P b → P (send_string b text)) where
  line-keeps : (b : Board) (text : List ℕ) → P b → P (send_line b text)
  unfolding send_line
  line-keeps b text p = sends (send_string b text) crlf (sends b text p)

  pub send-keeps : (w : Site) (entry exit : Lane) → P w.board → P (Telemetry.send w entry exit).1
  unfolding Telemetry.send Telemetry.build_frame Telemetry.finish
  send-keeps w entry exit p =
      sends w.board (Telemetry.finish 6 (Telemetry.append_fields w entry exit (codes "$PK,F="))) p

  print_rows-keeps : (rows : List Ticket) (b : Board) → P b → P (print_rows rows b)
  unfolding print_rows
  print_rows-keeps [] b p = p
  print_rows-keeps (t ∷ rows) b p =
      print_rows-keeps rows (if t.active == 0 then b else send_string b (ticket_line t))
        (choose P (t.active == 0) p (sends b (ticket_line t) p))

  apply_parsed-keeps :
      (b : Board) (r : ReturnType × Option ℕ) (target low high : ℕ)
      → P b
      → P (apply_parsed b r target low high).1
  unfolding apply_parsed apply_setting
  apply_parsed-keeps b (e_ok, some value) target low high p =
      choose (λ (r : ℕ × Board). P r.1) (ltb value low || ltb high value)
        (line-keeps b (codes "ERR RANGE") p) (line-keeps b (codes "OK") p)
  apply_parsed-keeps b (e_ok, none) target low high p = line-keeps b (codes "ERR RANGE") p
  apply_parsed-keeps b (e_nok, r) target low high p = line-keeps b (codes "ERR RANGE") p

  handle_set-keeps : (g : Settings) (b : Board) (args : List ℕ) → P b → P (handle_set g b args).1
  unfolding handle_set
  handle_set-keeps g b args p =
      let kept = apply_parsed-keeps b (parse_uint (skip_word args)) in
      let Q : Settings × Board → Type 0 = λ r. P r.1 in
      choose Q (match_word args (codes "TARIFF")) (kept g.tariff 1 100 p) (
        choose Q (match_word args (codes "GRACE")) (kept g.grace 0 60 p) (
          choose Q (match_word args (codes "HOLD")) (kept g.hold 2 15 p) (
            choose Q (match_word args (codes "TIMEOUT")) (kept g.pass_timeout 10 60 p) (
              choose Q (match_word args (codes "LIGHT")) (kept g.light_thresh 0 100 p)
                (line-keeps b (codes "ERR CMD") p)))))

  module _ (w : Site) (p : P w.board) where
    -- OPEN and CLOSE, of which only maintenance lets the barriers move
    gate-keeps :
        (args : List ℕ) (b0 b1 : Board)
        → (is_maintenance w.lot.state ≡ true → P b0 × P b1)
        → P
            (if is_maintenance w.lot.state
              then (if match_word args (codes "IN")
                  then say (record w { board = b0 }) (codes "OK")
                  else if match_word args (codes "OUT")
                  then say (record w { board = b1 }) (codes "OK")
                  else say w (codes "ERR CMD"))
              else say w (codes "ERR MODE")).board
    unfolding say
    gate-keeps args b0 b1 moved =
        let AtBoard : Site → Type 0 = λ w'. P w'.board in
        choose_on AtBoard (is_maintenance w.lot.state)
          (λ m.
            choose AtBoard (match_word args (codes "IN")) (line-keeps b0 (codes "OK") (moved m).0) (
              choose AtBoard (match_word args (codes "OUT"))
                (line-keeps b1 (codes "OK") (moved m).1) (line-keeps w.board (codes "ERR CMD") p)))
          (line-keeps w.board (codes "ERR MODE") p)

    maint-keeps :
        (args : List ℕ) (l0 l1 : Lot)
        → P
            (if match_word args (codes "ON")
              then say (record w { lot = l0 }) (codes "OK")
              else if match_word args (codes "OFF")
              then say (record w { lot = l1 }) (codes "OK")
              else say w (codes "ERR CMD")).board
    unfolding say
    maint-keeps args l0 l1 =
        let AtBoard : Site → Type 0 = λ w'. P w'.board in
        let ok = line-keeps w.board (codes "OK") p in
        choose AtBoard (match_word args (codes "ON")) ok (
          choose AtBoard (match_word args (codes "OFF")) ok
            (line-keeps w.board (codes "ERR CMD") p))

  handle-keeps :
      (c : Option Command) (g : Settings) (w : Site) (entry exit : Lane) (args : List ℕ)
      → (is_maintenance w.lot.state ≡ true
          → (c : ℕ) → P (open_barrier w.board c).1 × P (close_barrier w.board c).1)
      → P w.board
      → P (handle c g w entry exit args).1.board
  unfolding say handle handle_open handle_close handle_status handle_tickets handle_maint
      handle_slots handle_free handle_stats handle_clr_stats handle_help print_open_tickets
  handle-keeps none g w entry exit args moved p = line-keeps w.board (codes "ERR CMD") p
  handle-keeps (some opening) g w entry exit args moved p =
      gate-keeps w p args (open_barrier w.board 0).1 (open_barrier w.board 1).1
        (λ m. ((moved m 0).0, (moved m 1).0))
  handle-keeps (some closing) g w entry exit args moved p =
      gate-keeps w p args (close_barrier w.board 0).1 (close_barrier w.board 1).1
        (λ m. ((moved m 0).1, (moved m 1).1))
  handle-keeps (some maint) g w entry exit args moved p =
      maint-keeps w p args (set_maintenance w.lot 1) (set_maintenance w.lot 0)
  handle-keeps (some status) g w entry exit args moved p = send-keeps w entry exit p
  handle-keeps (some setting) g w entry exit args moved p = handle_set-keeps g w.board args p
  handle-keeps (some tickets) g w entry exit args moved p =
      print_rows-keeps w.tickets.tickets w.board p
  handle-keeps (some slots) g w entry exit args moved p =
      line-keeps w.board (slots_line (get_map w.slots)) p
  handle-keeps (some free) g w entry exit args moved p =
      line-keeps w.board (codes "FREE=" ++ decimal 6 w.lot.free_slots) p
  handle-keeps (some stats) g w entry exit args moved p =
      line-keeps w.board
        (codes "STATS="
          ++ (decimal 6 w.tickets.total_entries
              ++ (codes ","
                  ++ (decimal 6 w.billing.total_exits
                      ++ (codes ","
                          ++ (decimal 6 w.billing.total_revenue
                              ++ (codes "," ++ decimal 6 w.lot.peak_occupancy)))))))
        p
  handle-keeps (some clr_stats) g w entry exit args moved p = line-keeps w.board (codes "OK") p
  handle-keeps (some help) g w entry exit args moved p =
      let t1 = codes "STATUS SLOTS? FREE? TICKETS? STATS?" in
      let t2 = codes "SET TARIFF/GRACE/HOLD/TIMEOUT/LIGHT <n>" in
      let t3 = codes "OPEN IN/OUT  CLOSE IN/OUT  (maintenance only)" in
      let b1 = send_line w.board t1 in
      let b2 = send_line b1 t2 in
      line-keeps (send_line b2 t3) (codes "MAINT ON/OFF  CLRSTATS  HELP")
        (line-keeps b2 t3 (line-keeps b1 t2 (line-keeps w.board t1 p)))

  -- only OPEN and CLOSE in maintenance do more than send
  pub parse_line-keeps :
      (g : Settings) (w : Site) (entry exit : Lane) (line : Option (List ℕ))
      → (is_maintenance w.lot.state ≡ true
          → (c : ℕ) → P (open_barrier w.board c).1 × P (close_barrier w.board c).1)
      → P w.board
      → P (parse_line g w entry exit line).2.board
  unfolding parse_line
  parse_line-keeps g w entry exit none moved p = p
  parse_line-keeps g w entry exit (some line) moved p =
      choose (λ (r : ReturnType × Settings × Site). P r.2.board) (ltb 24 (u8 (length line)))
        (line-keeps w.board (codes "ERR LONG") p)
        (handle-keeps (find_command commands line) g w entry exit (skip_word line) moved p)
