-- ===== src/Light/Hysteresis.antt =====
-- The switching of the lamps against the light level (APP/light/light.c).
use Prim.Native.Nat.{min}
use smart_parking_system_nti.Prelude.{ℕ, ◌+◌, ◌*◌, ◌/◌, ◌≤◌, ◌<◌, ◌≡◌, e_ok, arith}
use smart_parking_system_nti.Board.{Board}
use smart_parking_system_nti.Light.{Light, pct_to_raw, off_percent, switch, run}

-- For a threshold of up to 100 % and with the sensor's channel read at `raw`, LIGHT_Run succeeds and
-- leaves the lamps on below the threshold, off from ten points above it (100 % at most) on, and as
-- they were in between. The two limits are never the wrong way round.
pub run_lem :
    (l : Light) (threshold : ℕ) (b : Board)
    → threshold ≤ 100
    → l.lamps_on ≤ 1
    → let on = threshold * 1023 / 100 in
      let off = min 100 (threshold + 10) * 1023 / 100 in
      let raw = b.analog 2 in
      let l' = (run l threshold b).1 in
      ((run l threshold b).0 ≡ e_ok)
      × (on ≤ off)
      × (raw < on → l'.lamps_on ≡ 1)
      × (off ≤ raw → l'.lamps_on ≡ 0)
      × (on ≤ raw → raw < off → l'.lamps_on ≡ l.lamps_on)
unfolding run switch pct_to_raw off_percent
run_lem l threshold b t on = ground arith
