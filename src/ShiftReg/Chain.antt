-- ===== src/ShiftReg/Chain.antt =====
-- What a write leaves in the chain and on the strobe (SR_Write in HAL/shiftreg/shiftreg.c).
use smart_parking_system_nti.Prelude.{ℕ, ◌≡◌, ◌/◌, u8, refl, [], ◌∷◌, ◌++◌, e_ok}
use smart_parking_system_nti.Dio.{set_bit, clear_bit}
use smart_parking_system_nti.Board.{Board}
use smart_parking_system_nti.ShiftReg.{ShiftReg, write}

-- the board after a write
abbrev pub written : Board → ℕ → Board
written b word = record b {
  dio = record (b.dio) { b = record (b.dio.b) { port = clear_bit (set_bit b.dio.b.port 4) 4 } };
  spi = record (b.spi) {
    shifted = (b.spi.shifted ++ ((u8 (word / 256)) ∷ [])) ++ (u8 word ∷ []);
    latched = (b.spi.shifted ++ ((u8 (word / 256)) ∷ [])) ++ (u8 word ∷ []);
  };
}

pub write_eq :
    (s : ShiftReg) (b : Board) (word : ℕ)
    → write s b word ≡ (e_ok, record { shadow = word }, written b word)
unfolding write
write_eq s b word = refl
