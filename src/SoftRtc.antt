-- ===== src/SoftRtc.antt =====
-- LIB/softrtc.c: the uptime clock that the 10 ms tick drives, and its text form.
pub mod Clock
pub mod Stamp
use smart_parking_system_nti.Prelude.{
  ℕ, zero, suc, ◌+◌, ◌*◌, ◌/◌, ◌%◌, Option, none, some, List, [], ◌∷◌, ◌++◌, if◌then◌else◌, leb,
  ltb, u8, u32, drop, ReturnType, e_ok, e_nok,
}
use smart_parking_system_nti.Config.{system_tick_ms}

pub record SoftRtc : Type 0 where
  pub uptime_sec : ℕ
  pub sub_tick : ℕ

-- the static initialisers
unfoldable pub boot : SoftRtc
boot = record { uptime_sec = 0; sub_tick = 0 }

unfoldable pub tick_10ms : SoftRtc → SoftRtc
tick_10ms c =
    if leb (1000 / system_tick_ms) (u8 (c.sub_tick + 1))
    then record { uptime_sec = u32 (c.uptime_sec + 1); sub_tick = 0 }
    else record c { sub_tick = u8 (c.sub_tick + 1) }

unfoldable pub seconds : SoftRtc → ℕ
seconds c = c.uptime_sec

-- `n` ticks
unfoldable pub ticks : ℕ → SoftRtc → SoftRtc
ticks zero c = c
ticks (suc n) c = tick_10ms (ticks n c)

-- the ten bytes that `RTC_Format` writes: HHH:MM:SS and the NUL
unfoldable pub stamp : ℕ → List ℕ
stamp sec =
    let hours = sec / 3600 in
    let minutes = u8 (sec % 3600 / 60) in
    let secs = u8 (sec % 60) in
    (b'0' + hours / 100 % 10)
    ∷ (b'0' + hours / 10 % 10)
    ∷ (b'0' + hours % 10)
    ∷ b':'
    ∷ (b'0' + minutes / 10)
    ∷ (b'0' + minutes % 10)
    ∷ b':'
    ∷ (b'0' + secs / 10)
    ∷ (b'0' + secs % 10)
    ∷ 0
    ∷ []

-- The buffer is `none` if NULL; its first ten bytes are written.
unfoldable pub format : ℕ → Option (List ℕ) → ℕ → ReturnType × Option (List ℕ)
unfolding stamp
format sec none size = (e_nok, none)
format sec (some buf) size =
    if ltb size 10 then (e_nok, some buf) else (e_ok, some (stamp sec ++ drop 10 buf))
