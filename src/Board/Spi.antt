-- ===== src/Board/Spi.antt =====
-- MCAL/spi/spi.c: the master that shifts bytes out. A transfer is taken to end (SPIF), and what it
-- reads back is the circuit's.
use smart_parking_system_nti.Prelude.{ℕ, Option, none, some, [], ◌∷◌, ◌++◌, ReturnType, e_ok, e_nok}
use smart_parking_system_nti.Dio.{set_bit, clear_bit}
use smart_parking_system_nti.Board.{Board}

-- SPE, MSTR and SPR0
abbrev pub spcr_master : ℕ
spcr_master = 0x51

unfoldable pub init : Board → ReturnType × Board
unfolding set_bit clear_bit
init b = (
  e_ok,
  record b {
    dio = record (b.dio) {
      b = record (b.dio.b) { ddr = clear_bit (set_bit (set_bit b.dio.b.ddr 5) 7) 6 };
    };
    spi = record (b.spi) { spcr = spcr_master; spsr = clear_bit b.spi.spsr 0 };
  },
)

-- the pointer is `none` if NULL, else what it points to
unfoldable pub transfer : Board → ℕ → Option ℕ → ReturnType × Option ℕ × Board
transfer b byte none = (e_nok, none, b)
transfer b byte (some received) = (
  e_ok,
  some b.spi.answer,
  record b { spi = record (b.spi) { shifted = b.spi.shifted ++ (byte ∷ []) } },
)
