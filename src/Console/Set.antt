-- ===== src/Console/Set.antt =====
-- The settings that SET changes (APP/console/console.c).
use smart_parking_system_nti.Prelude.{
  ℕ, ◌||◌, Option, none, some, List, if◌then◌else◌, ltb, u8, ReturnType, e_ok, e_nok,
}
use smart_parking_system_nti.Config.{
  tariff_default, grace_default_minutes, gate_hold_default_sec, pass_timeout_default_sec,
  light_threshold_default,
}
use smart_parking_system_nti.Text.{codes}
use smart_parking_system_nti.Ticketing.{crlf}
use smart_parking_system_nti.Board.{Board}
use smart_parking_system_nti.Board.Usart.{send_string}
use smart_parking_system_nti.Console.Words.{match_word, skip_word, parse_uint}

-- the module's static variables
pub record Settings : Type 0 where
  pub tariff : ℕ
  pub grace : ℕ
  pub hold : ℕ
  pub pass_timeout : ℕ
  pub light_thresh : ℕ

-- CONSOLE_Init
unfoldable pub init : ReturnType × Settings
init = (
  e_ok,
  record {
    tariff = tariff_default;
    grace = grace_default_minutes;
    hold = gate_hold_default_sec;
    pass_timeout = pass_timeout_default_sec;
    light_thresh = light_threshold_default;
  },
)

unfoldable pub send_line : Board → List ℕ → Board
unfolding send_string
send_line b text = send_string (send_string b text) crlf

-- the new value of `*Copy_pu8Target`
unfoldable pub apply_setting : Board → ℕ → ℕ → ℕ → ℕ → ℕ × Board
unfolding send_line
apply_setting b target value min max =
    if ltb value min || ltb max value
    then (target, send_line b (codes "ERR RANGE"))
    else (u8 value, send_line b (codes "OK"))

-- what follows the parse, the same in every branch
unfoldable pub apply_parsed : Board → ReturnType × Option ℕ → ℕ → ℕ → ℕ → ℕ × Board
unfolding apply_setting
apply_parsed b (e_ok, some value) target min max = apply_setting b target value min max
apply_parsed b (e_ok, none) target min max = (target, send_line b (codes "ERR RANGE"))
apply_parsed b (e_nok, parsed) target min max = (target, send_line b (codes "ERR RANGE"))

unfoldable pub handle_set : Settings → Board → List ℕ → Settings × Board
unfolding apply_parsed
handle_set g b args =
    let parsed = parse_uint (skip_word args) in
    if match_word args (codes "TARIFF")
    then (let (v, b') = apply_parsed b parsed g.tariff 1 100 in (record g { tariff = v }, b'))
    else if match_word args (codes "GRACE")
    then (let (v, b') = apply_parsed b parsed g.grace 0 60 in (record g { grace = v }, b'))
    else if match_word args (codes "HOLD")
    then (let (v, b') = apply_parsed b parsed g.hold 2 15 in (record g { hold = v }, b'))
    else if match_word args (codes "TIMEOUT")
    then (let (v, b') = apply_parsed b parsed g.pass_timeout 10 60 in
        (record g { pass_timeout = v }, b'))
    else if match_word args (codes "LIGHT")
    then (let (v, b') = apply_parsed b parsed g.light_thresh 0 100 in
        (record g { light_thresh = v }, b'))
    else (g, send_line b (codes "ERR CMD"))
