-- ===== src/Console/Sound.antt =====
-- What the commands of APP/console/console.c do to the data that the lanes share.
use smart_parking_system_nti.Prelude.{
  ℕ, ltb, u8, choose, Option, some, none, List, length, ReturnType, arith,
}
use smart_parking_system_nti.Text.{codes}
use smart_parking_system_nti.Site.{Site}
use smart_parking_system_nti.Lot.{is_maintenance}
use smart_parking_system_nti.Lot.Modes.{set_mode}
use smart_parking_system_nti.Ticketing
use smart_parking_system_nti.Ticketing.Valid.{IsValid}
use smart_parking_system_nti.Billing
use smart_parking_system_nti.Lane.{Lane}
use smart_parking_system_nti.Lane.Sound.{IsSiteSound}
use smart_parking_system_nti.Console.{
  Command, status, slots, free, tickets, stats, setting, opening, closing, maint, clr_stats, help,
  handle, handle_status, handle_slots, handle_free, handle_tickets, handle_stats, handle_open,
  handle_close, handle_maint, handle_clr_stats, handle_help, say, parse_line, find_command,
  commands,
}
use smart_parking_system_nti.Console.Words.{match_word, skip_word}
use smart_parking_system_nti.Console.Set.{Settings}

clear-IsValid : (t : Ticketing.Ticketing) → IsValid t → IsValid (Ticketing.clear_stats t)
unfolding Ticketing.clear_stats
clear-IsValid t v = record {
  size = v.size;
  id_low = v.id_low;
  id_high = v.id_high;
  counted = omega arith;
  rows = v.rows;
}

module _ (g : Settings) (w : Site) (entry exit : Lane) (args : List ℕ) (sound : IsSiteSound w) where
  handle-IsSiteSound : (c : Option Command) → IsSiteSound (handle c g w entry exit args).1
  unfolding handle handle_status handle_slots handle_free handle_tickets handle_stats handle_open
      handle_close handle_maint handle_clr_stats handle_help say Billing.clear_stats
  handle-IsSiteSound none = sound
  handle-IsSiteSound (some opening) =
      choose IsSiteSound (is_maintenance w.lot.state)
        (choose IsSiteSound (match_word args (codes "IN")) sound
          (choose IsSiteSound (match_word args (codes "OUT")) sound sound))
        sound
  handle-IsSiteSound (some closing) =
      choose IsSiteSound (is_maintenance w.lot.state)
        (choose IsSiteSound (match_word args (codes "IN")) sound
          (choose IsSiteSound (match_word args (codes "OUT")) sound sound))
        sound
  handle-IsSiteSound (some maint) =
      let (v, clock, six, counts, low) = sound in
      let on = ((set_mode w.lot 1).2 counts).0 in
      let off = ((set_mode w.lot 0).2 counts).0 in
      choose IsSiteSound (match_word args (codes "ON")) (v, clock, six, on, low)
        (choose IsSiteSound (match_word args (codes "OFF")) (v, clock, six, off, low) sound)
  handle-IsSiteSound (some clr_stats) =
      let (v, clock, six, counts, low) = sound in
      (clear-IsValid w.tickets v, clock, six, counts, (omega arith, omega arith))
  handle-IsSiteSound (some status) = sound
  handle-IsSiteSound (some slots) = sound
  handle-IsSiteSound (some free) = sound
  handle-IsSiteSound (some tickets) = sound
  handle-IsSiteSound (some stats) = sound
  handle-IsSiteSound (some setting) = sound
  handle-IsSiteSound (some help) = sound

-- Whatever line is typed, the shared data stay in their ranges.
pub parse_line-IsSiteSound :
    (g : Settings) (w : Site) (entry exit : Lane) (line : Option (List ℕ))
    → IsSiteSound w
    → IsSiteSound (parse_line g w entry exit line).2
unfolding parse_line say
parse_line-IsSiteSound g w entry exit none sound = sound
parse_line-IsSiteSound g w entry exit (some line) sound =
    choose (λ (r : ReturnType × Settings × Site). IsSiteSound r.2) (ltb 24 (u8 (length line))) sound
      (handle-IsSiteSound g w entry exit (skip_word line) sound (find_command commands line))
