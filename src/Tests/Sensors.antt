-- ===== src/Tests/Sensors.antt =====
-- The theorems on the loops, the lamps and the status frame, on the installation of the fixtures.
use smart_parking_system_nti.Prelude.{◌≡◌, refl, arith, [], ◌∷◌, ◌++◌, length, some, e_ok, inl}
use smart_parking_system_nti.Text.{codes}
use smart_parking_system_nti.Checksum.{xor_checksum}
use smart_parking_system_nti.Lane.{idle}
use smart_parking_system_nti.LoopSense.{LoopSense}
use smart_parking_system_nti.LoopSense.Confirm.{watch, watch_switches}
use smart_parking_system_nti.Light
use smart_parking_system_nti.Light.{Light}
use smart_parking_system_nti.Light.Hysteresis.{run_lem}
use smart_parking_system_nti.Telemetry.{build_frame}
use smart_parking_system_nti.Telemetry.Frame.{fields, trailer, build_frame_lem}
use smart_parking_system_nti.Tests.Fixtures.{board, site, entry_lane}

-- a clear loop with one reading counted
abbrev loop : LoopSense
loop = record { adc_channel = 0; confirmed_active = 0; candidate_count = 1 }

watch_switches_example :
    ((watch (700 ∷ 601 ∷ 900 ∷ []) loop (entry_lane idle 0 0)).0.confirmed_active ≡ 1)
    × ((watch (700 ∷ 601 ∷ 900 ∷ []) loop (entry_lane idle 0 0)).1.loop_active ≡ 1)
watch_switches_example =
    watch_switches (700 ∷ 601 ∷ 900 ∷ []) loop (entry_lane idle 0 0) 0 refl (omega arith) refl
      (inl (refl, omega arith), (inl (refl, omega arith), (inl (refl, omega arith), tt)))

abbrev lamps : Light
lamps = record { lamps_on = 1 }

-- the sensor reads 650, above the limit of 409
run_lem_example : (Light.run lamps 30 board).0 ≡ e_ok
run_lem_example = (run_lem lamps 30 board (omega arith) (omega arith)).0

build_frame_example :
    let fs = fields site (entry_lane idle 0 0) (entry_lane idle 0 0) in
    build_frame site (entry_lane idle 0 0) (entry_lane idle 0 0) (some [])
    ≡ (e_ok, some (codes "$PK,F=" ++ (fs ++ trailer (xor_checksum (some fs) (length fs)))))
build_frame_example =
    (build_frame_lem site (entry_lane idle 0 0) (entry_lane idle 0 0) [] (record {
      free = omega arith;
      occupied = omega arith;
      entries = omega arith;
      exits = omega arith;
      revenue = omega arith;
      uptime = omega arith;
    })).0
