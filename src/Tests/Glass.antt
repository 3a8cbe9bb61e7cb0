-- ===== src/Tests/Glass.antt =====
-- A display to try the theorems on, behind a bus that is never busy.
use smart_parking_system_nti.Prelude.{
  ℕ, ◌+◌, ◌-◌, ◌==◌, ◌≡◌, refl, ap, arith, true, if◌then◌else◌, leb, replicate, List, [], ◌∷◌, ◌++◌,
  e_ok,
}
use smart_parking_system_nti.Lcd.{Bus, Lcd, transaction, send_command, write_char}
use smart_parking_system_nti.Lcd.Screen.{Memory, jump, put, Drives}

-- a display behind a bus that is never busy: its memory, and the bytes since the last start
pub record Glass : Type 0 where
  pub memory : Memory
  pub bytes : List ℕ

unfoldable pub obey : Memory → List ℕ → Memory
obey m (address ∷ control ∷ byte ∷ []) =
    if control == 0 then (if leb 128 byte then jump m (byte - 128) else m) else put m byte
obey m _ = m

unfoldable pub glass_bus : Bus Glass
unfolding obey
glass_bus = record {
  begin = λ s. (e_ok, s);
  start = λ s. (e_ok, record s { bytes = [] });
  stop = λ s. (e_ok, record s { memory = obey s.memory s.bytes });
  write = λ s byte. (e_ok, record s { bytes = s.bytes ++ (byte ∷ []) });
}

pub obey-jump : (m : Memory) (a : ℕ) → obey m (124 ∷ 0 ∷ (128 + a) ∷ []) ≡ jump m a
unfolding obey
obey-jump m a =
    let high : leb 128 (128 + a) ≡ true = ground arith in
    let low : 128 + a - 128 ≡ a = omega arith in rw high (ap (jump m) low)

pub glass-Drives : Drives glass_bus (λ s. s.memory) (λ s. Unit {0})
unfolding glass_bus transaction send_command write_char obey
glass-Drives = record {
  command = λ s a ready small column. (refl, obey-jump s.memory a, tt);
  char = λ s c ready byte small column. (refl, refl, tt);
}

abbrev pub blank : Glass
blank = record { memory = record { address = 0; cells = λ k. 32 }; bytes = [] }

-- the shadow holds a row of spaces, as the display shows
abbrev pub spaces : Lcd
spaces = record { shadow = replicate 16 32 ∷ replicate 16 32 ∷ []; valid = 1 }
