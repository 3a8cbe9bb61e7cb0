-- ===== src/Console.antt =====
-- APP/console/console.c: the command line. A C string is its characters up to the NUL, so a pointer
-- moved along it is the rest of the list. The live settings are the module's static variables.
pub mod Words
pub mod Set
pub mod Parse
pub mod Ranges
pub mod Keeps
pub mod Gates
pub mod Order
pub mod Sound
use smart_parking_system_nti.Prelude.{
  ℕ, zero, suc, ◌+◌, ◌^◌, Bool, true, false, ◌||◌, Option, none, some, List, [], ◌∷◌, ◌++◌,
  if◌then◌else◌, ltb, ◌==◌, ◌!=◌, bit_and, u8, length, ReturnType, e_ok, e_nok,
}
use smart_parking_system_nti.Config.{console_max_line, pwm_ch_entry, pwm_ch_exit}
use smart_parking_system_nti.Text.{codes, decimal}
use smart_parking_system_nti.Board.{Board}
use smart_parking_system_nti.Board.Usart.{send_string}
use smart_parking_system_nti.Barrier.{open_barrier, close_barrier}
use smart_parking_system_nti.Slots
use smart_parking_system_nti.Lot.{Lot, LotState, is_maintenance, set_maintenance}
use smart_parking_system_nti.Ticketing
use smart_parking_system_nti.Ticketing.{print_open_tickets, crlf}
use smart_parking_system_nti.Billing
use smart_parking_system_nti.Site.{Site}
use smart_parking_system_nti.Lane.{Lane}
use smart_parking_system_nti.Telemetry
use smart_parking_system_nti.Console.Words.{match_word, skip_word}
use smart_parking_system_nti.Console.Set.{Settings, send_line, handle_set}

-- `CONSOLE_SendLine` on the board of the site
say : Site → List ℕ → Site
say w text = record w { board = send_line w.board text }

-- `TELEM_Send` has the same body as `CONSOLE_Handle_Status`, but for its status.
handle_status : Site → Lane → Lane → Site
unfolding Telemetry.send
handle_status w entry exit = record w { board = (Telemetry.send w entry exit).1 }

-- the loop over the bits, from `count - 1` down to 0
unfoldable pub slot_digits : ℕ → ℕ → List ℕ
slot_digits map zero = []
slot_digits map (suc k) = (if bit_and map (2 ^ k) != 0 then b'1' else b'0') ∷ slot_digits map k

unfoldable pub slots_line : ℕ → List ℕ
unfolding slot_digits
slots_line map = codes "SLOTS=" ++ slot_digits map 6

handle_slots : Site → Site
unfolding slots_line Slots.get_map
handle_slots w = say w (slots_line (Slots.get_map w.slots))

handle_free : Site → Site
unfolding decimal
handle_free w = say w (codes "FREE=" ++ decimal 6 w.lot.free_slots)

handle_tickets : Site → Site
handle_tickets w = record w { board = print_open_tickets w.tickets w.board }

handle_stats : Site → Site
handle_stats w = say w (
    codes "STATS="
    ++ (decimal 6 w.tickets.total_entries
        ++ (codes ","
            ++ (decimal 6 w.billing.total_exits
                ++ (codes ","
                    ++ (decimal 6 w.billing.total_revenue
                        ++ (codes "," ++ decimal 6 w.lot.peak_occupancy)))))))

handle_open : Site → List ℕ → Site
unfolding open_barrier
handle_open w args =
    if is_maintenance w.lot.state
    then (if match_word args (codes "IN")
        then say (record w { board = (open_barrier w.board pwm_ch_entry).1 }) (codes "OK")
        else if match_word args (codes "OUT")
        then say (record w { board = (open_barrier w.board pwm_ch_exit).1 }) (codes "OK")
        else say w (codes "ERR CMD"))
    else say w (codes "ERR MODE")

handle_close : Site → List ℕ → Site
unfolding close_barrier
handle_close w args =
    if is_maintenance w.lot.state
    then (if match_word args (codes "IN")
        then say (record w { board = (close_barrier w.board pwm_ch_entry).1 }) (codes "OK")
        else if match_word args (codes "OUT")
        then say (record w { board = (close_barrier w.board pwm_ch_exit).1 }) (codes "OK")
        else say w (codes "ERR CMD"))
    else say w (codes "ERR MODE")

handle_maint : Site → List ℕ → Site
unfolding set_maintenance
handle_maint w args =
    if match_word args (codes "ON")
    then say (record w { lot = set_maintenance w.lot 1 }) (codes "OK")
    else if match_word args (codes "OFF")
    then say (record w { lot = set_maintenance w.lot 0 }) (codes "OK")
    else say w (codes "ERR CMD")

handle_clr_stats : Site → Site
unfolding Billing.clear_stats Ticketing.clear_stats
handle_clr_stats w =
    let cleared = record w {
      billing = Billing.clear_stats w.billing;
      tickets = Ticketing.clear_stats w.tickets;
    } in
    say cleared (codes "OK")

handle_help : Site → Site
handle_help w =
    let w1 = say w (codes "STATUS SLOTS? FREE? TICKETS? STATS?") in
    let w2 = say w1 (codes "SET TARIFF/GRACE/HOLD/TIMEOUT/LIGHT <n>") in
    let w3 = say w2 (codes "OPEN IN/OUT  CLOSE IN/OUT  (maintenance only)") in
    say w3 (codes "MAINT ON/OFF  CLRSTATS  HELP")

-- the handlers of the table
pub data Command : Type 0 where
  status slots free tickets stats setting opening closing maint clr_stats help : Command

-- the table `CONSOLE_Commands`
abbrev pub commands : List (List ℕ × Command)
commands =
    (codes "STATUS", status)
    ∷ (codes "SLOTS?", slots)
    ∷ (codes "FREE?", free)
    ∷ (codes "TICKETS?", tickets)
    ∷ (codes "STATS?", stats)
    ∷ (codes "SET", setting)
    ∷ (codes "OPEN", opening)
    ∷ (codes "CLOSE", closing)
    ∷ (codes "MAINT", maint)
    ∷ (codes "CLRSTATS", clr_stats)
    ∷ (codes "HELP", help)
    ∷ []

-- the first entry whose name the line starts with
unfoldable pub find_command : List (List ℕ × Command) → List ℕ → Option Command
find_command [] line = none
find_command (entry ∷ table) line =
    let rest = find_command table line in if match_word line entry.0 then some entry.1 else rest

-- a call of one handler
unfoldable pub handle : Option Command → Settings → Site → Lane → Lane → List ℕ → Settings × Site
unfolding say handle_status handle_slots handle_free handle_tickets handle_stats handle_open
    handle_close handle_maint handle_clr_stats handle_help handle_set
handle none g w entry exit args = (g, say w (codes "ERR CMD"))
handle (some status) g w entry exit args = (g, handle_status w entry exit)
handle (some slots) g w entry exit args = (g, handle_slots w)
handle (some free) g w entry exit args = (g, handle_free w)
handle (some tickets) g w entry exit args = (g, handle_tickets w)
handle (some stats) g w entry exit args = (g, handle_stats w)
handle (some setting) g w entry exit args =
    let (g', b) = handle_set g w.board args in (g', record w { board = b })
handle (some opening) g w entry exit args = (g, handle_open w args)
handle (some closing) g w entry exit args = (g, handle_close w args)
handle (some maint) g w entry exit args = (g, handle_maint w args)
handle (some clr_stats) g w entry exit args = (g, handle_clr_stats w)
handle (some help) g w entry exit args = (g, handle_help w)

-- The line is `none` if NULL. The two lanes are the globals that a status frame reads.
unfoldable pub parse_line :
    Settings → Site → Lane → Lane → Option (List ℕ) → ReturnType × Settings × Site
unfolding handle say
parse_line g w entry exit none = (e_nok, g, w)
parse_line g w entry exit (some line) =
    let answered = handle (find_command commands line) g w entry exit (skip_word line) in
    if ltb console_max_line (u8 (length line))
    then (e_ok, g, say w (codes "ERR LONG"))
    else (e_ok, answered.0, answered.1)
