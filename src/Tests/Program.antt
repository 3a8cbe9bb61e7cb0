-- ===== src/Tests/Program.antt =====
-- The theorems on the whole program.
use smart_parking_system_nti.Prelude.{
  ℕ, ◌+◌, ◌≤◌, ◌≡◌, ◌≢◌, refl, arith, [], ◌∷◌, ◌++◌, replicate, length, e_nok,
}
use smart_parking_system_nti.Lot.{initial, fault}
use smart_parking_system_nti.Lane.{LaneState, idle}
use smart_parking_system_nti.Buttons.{unused}
use smart_parking_system_nti.LoopSense.{LoopSense}
use smart_parking_system_nti.SevenSeg
use smart_parking_system_nti.Display.{Panel}
use smart_parking_system_nti.Main.{System, Glue}
use smart_parking_system_nti.Main.Boot.{before_init, initialise, boot}
use smart_parking_system_nti.Barrier.Position.{pulse}
use smart_parking_system_nti.Text.{codes}
use smart_parking_system_nti.Main.Lanes.{task_lanes}
use smart_parking_system_nti.Main.Gates.{Obeys, task_lanes_lem}
use smart_parking_system_nti.Main.Rounds.{IsSafe}
use smart_parking_system_nti.Main.Start.{IsShut}
use smart_parking_system_nti.Main.Failed.{IsOpen, boot_lem}
use smart_parking_system_nti.Main.Line.{drain, task_console}
use smart_parking_system_nti.Main.Drain.{queue, task_console_drains}
use smart_parking_system_nti.Main.Assemble.{feed, Submits, typed_line_lem}
use smart_parking_system_nti.Main.Tasks.{task_lot, check_mismatch, mismatch_event}
use smart_parking_system_nti.Main.Mismatch.{watch, waiting, tickets, occupied, check_mismatch_lem}
use smart_parking_system_nti.Main.Loop.{run, ticked, passed, received, sensed}
use smart_parking_system_nti.Scheduler.{tick}
use smart_parking_system_nti.Main.Ticks.{spent, tick_load}
use smart_parking_system_nti.Main.Sound.Tasks.{IsSound}
use smart_parking_system_nti.Main.Sound.Always.{always-IsSound}
use smart_parking_system_nti.Main.Unseen.{unseen, unseen_close}
use smart_parking_system_nti.Main.Barriers.{IsAligned}
use smart_parking_system_nti.Tests.Fixtures.{site, entry_lane}

abbrev pub loop : ℕ → LoopSense
loop channel = record { adc_channel = channel; confirmed_active = 0; candidate_count = 0 }

abbrev pub panel : Panel
panel = record {
  chain = record { shadow = 0 };
  leds = record { last = 0; primed = 0 };
  digit = SevenSeg.boot;
  lcd = record { shadow = replicate 16 0 ∷ replicate 16 0 ∷ []; valid = 0 };
}

abbrev pub glue : Glue
glue = record {
  tick_flag = 0;
  tick_overrun = 0;
  overrun_count = 0;
  prev_maint_btn = 0;
  exit_btn_hold = 0;
  prev_full_sign = 255;
  prev_lot_state = initial;
  prev_entry_state = idle;
  prev_exit_state = idle;
  in_maintenance = 0;
  mismatch_sec = 0;
  mismatch_logged = 0;
  line = [];
  line_overflow = 0;
}

abbrev pub system : System
system = record {
  site = site;
  settings = record { tariff = 10; grace = 15; hold = 5; pass_timeout = 20; light_thresh = 30 };
  entry = entry_lane idle 0 0;
  exit = record (entry_lane idle 0 0) { servo_ch = 1; is_entry = 0 };
  entry_loop = loop 0;
  exit_loop = loop 1;
  buttons = replicate 8 unused;
  light = record { lamps_on = 0 };
  panel = panel;
  sched = record { tasks = []; tick_count = 0 };
  glue = glue;
}

abbrev typed : System
typed = record system {
  site = record site {
    board = record (site.board) { rx = record (site.board.rx) { count = 2; head = 2 } };
  };
}

system-IsSafe : IsSafe system
unfolding pulse
system-IsSafe = ((refl, refl), (λ out. (refl, refl), λ inside. (refl, refl)))

task_lanes_example : Obeys system (task_lanes system)
task_lanes_example = task_lanes_lem system system-IsSafe.0 system-IsSafe.1

boot_example :
    IsShut (boot system)
    × IsSafe (boot system)
    × ((initialise (before_init system)).0 ≡ e_nok
        → ((boot system).site.lot.state ≡ fault) × IsOpen (task_lot (boot system)))
boot_example = boot_lem system refl refl

task_console_drains_example :
    (drain 9 typed ≡ task_console typed) × ((queue (task_console typed)).count ≡ 0)
task_console_drains_example = task_console_drains typed 9 (omega arith)

typed_line_example : Submits system (codes "FREE?") (feed (codes "FREE?" ++ (b'\r' ∷ [])) system)
typed_line_example = typed_line_lem system (codes "FREE?") refl refl (
  (omega arith, omega arith),
  (
    (omega arith, omega arith),
    ((omega arith, omega arith), ((omega arith, omega arith), ((omega arith, omega arith), _))),
  ),
)

-- one ticket is open and two slots are taken
abbrev uneven : System
uneven = record system { site = record site { lot = record (site.lot) { occupied_slots = 2 } } }

check_mismatch_example :
    (tickets uneven ≢ occupied uneven
      → ((n : ℕ) → n ≤ 30 → watch n (waiting uneven 0) ≡ waiting uneven n)
        × ((n : ℕ)
            → (watch (n + 31) (waiting uneven 0)).site
              ≡ mismatch_event uneven.site (tickets uneven) (occupied uneven)))
    × (tickets uneven ≡ occupied uneven → check_mismatch uneven ≡ waiting uneven 0)
check_mismatch_example = check_mismatch_lem uneven

tick_load_example :
    let due = (tick (run (ticked ∷ passed ∷ ticked ∷ passed ∷ []) (boot system)).sched).1 in
    (spent due ≤ 4900) × (length due ≤ 4)
tick_load_example = tick_load (ticked ∷ passed ∷ ticked ∷ passed ∷ []) system

always-IsSound_example :
    IsSound (run (received b'H' ∷ ticked ∷ sensed 251 255 (λ k. 650) ∷ passed ∷ []) (boot system))
always-IsSound_example =
    always-IsSound (received b'H' ∷ ticked ∷ sensed 251 255 (λ k. 650) ∷ passed ∷ []) system (
      omega arith,
      record { published = omega arith; timed = omega arith },
      omega arith,
      omega arith,
    )

-- a vehicle is passing the open entry barrier
abbrev crossed : System
crossed = record system {
  site = record site {
    board = record (site.board) { timer1 = record (site.board.timer1) { ocr1a = 2000 } };
  };
  entry = entry_lane LaneState.vehicle_passing 900 1;
}

unseen_close_example : ¬ IsAligned (feed unseen crossed)
unseen_close_example = (unseen_close crossed refl refl).1 refl refl
