-- ===== src/SoftRtc/Stamp.antt =====
-- Reading the text of RTC_Format back (LIB/softrtc.c).
use smart_parking_system_nti.Prelude.{ℕ, ◌+◌, ◌-◌, ◌*◌, ◌/◌, ◌%◌, ◌<◌, ◌≡◌, List, arith, get_or}
use smart_parking_system_nti.SoftRtc.{stamp}

-- the digits at `i` and `i + 1`
two_at : List ℕ → ℕ → ℕ
two_at t i = (get_or t i 0 - b'0') * 10 + (get_or t (i + 1) 0 - b'0')

-- HHH:MM:SS as a number of seconds
pub read_stamp : List ℕ → ℕ
unfolding two_at
read_stamp t = ((get_or t 0 0 - b'0') * 100 + two_at t 1) * 3600 + two_at t 4 * 60 + two_at t 7

three_digits : (h : ℕ) → h < 1000 → h / 100 % 10 * 100 + h / 10 % 10 * 10 + h % 10 ≡ h
three_digits h lt = omega arith

-- Below 1000 hours, formatting a time and reading the text back gives the time.
pub read_stamp-stamp : (sec : ℕ) → sec < 3600000 → read_stamp (stamp sec) ≡ sec
unfolding read_stamp stamp
read_stamp-stamp sec h = omega (arith, three_digits (sec / 3600))
