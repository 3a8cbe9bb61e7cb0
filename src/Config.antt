-- ===== src/Config.antt =====
-- APP/config.h and the constants that the modules define for themselves.
use smart_parking_system_nti.Prelude.{ℕ}

-- scheduler ticks of SYSTEM_TICK_MS
abbrev pub system_tick_ms : ℕ
system_tick_ms = 10

abbrev pub slot_count : ℕ
slot_count = 6

abbrev pub ticket_max : ℕ
ticket_max = 6

abbrev pub slot_debounce_samples : ℕ
slot_debounce_samples = 5

abbrev pub slot_mask : ℕ
slot_mask = 0xFC

abbrev pub slot_map_mask : ℕ
slot_map_mask = 0x3F

abbrev pub pwm_ch_entry : ℕ
pwm_ch_entry = 0

abbrev pub pwm_ch_exit : ℕ
pwm_ch_exit = 1

abbrev pub servo_closed_us : ℕ
servo_closed_us = 1500

abbrev pub servo_open_us : ℕ
servo_open_us = 2000

-- lane_fsm.c
abbrev pub gate_travel_ticks : ℕ
gate_travel_ticks = 100

abbrev pub gate_hold_ticks : ℕ
gate_hold_ticks = 500

abbrev pub pass_timeout_ticks : ℕ
pass_timeout_ticks = 2000

abbrev pub reject_ticks : ℕ
reject_ticks = 200

abbrev pub buz_pin : ℕ
buz_pin = 7

abbrev pub ticket_id_first : ℕ
ticket_id_first = 1

abbrev pub ticket_id_last : ℕ
ticket_id_last = 9999

abbrev pub tariff_default : ℕ
tariff_default = 10

abbrev pub grace_default_minutes : ℕ
grace_default_minutes = 15

abbrev pub daily_cap : ℕ
daily_cap = 120

-- loopsense.c
abbrev pub loop_present_raw : ℕ
loop_present_raw = 600

abbrev pub loop_clear_raw : ℕ
loop_clear_raw = 400

abbrev pub loopsense_confirm_samples : ℕ
loopsense_confirm_samples = 4

abbrev pub light_adc_channel : ℕ
light_adc_channel = 2

abbrev pub light_threshold_default : ℕ
light_threshold_default = 30

abbrev pub light_hysteresis_percent : ℕ
light_hysteresis_percent = 10

abbrev pub gate_hold_default_sec : ℕ
gate_hold_default_sec = 5

abbrev pub pass_timeout_default_sec : ℕ
pass_timeout_default_sec = 20

abbrev pub console_max_line : ℕ
console_max_line = 24

abbrev pub sched_max_tasks : ℕ
sched_max_tasks = 12
