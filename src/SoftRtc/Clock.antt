-- ===== src/SoftRtc/Clock.antt =====
-- The clock of LIB/softrtc.c over many ticks.
use smart_parking_system_nti.Prelude.{ℕ, zero, suc, ◌/◌, ◌%◌, ◌≡◌, arith, u32}
use smart_parking_system_nti.SoftRtc.{boot, tick_10ms, seconds, ticks}

-- After `n` ticks from boot the clock shows `n / 100` seconds modulo 2^32, and the partial second
-- holds the other `n % 100` ticks.
pub ticks-boot :
    (n : ℕ) → (seconds (ticks n boot) ≡ u32 (n / 100)) × ((ticks n boot).sub_tick ≡ n % 100)
unfolding ticks boot tick_10ms seconds
ticks-boot zero = omega arith
ticks-boot (suc n) = ground (arith, ticks-boot n)
