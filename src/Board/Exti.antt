-- ===== src/Board/Exti.antt =====
-- MCAL/exti/exti.c: the three external interrupts, INT0 to INT2.
use smart_parking_system_nti.Prelude.{
  ℕ, ◌-◌, ◌*◌, ◌||◌, bit_and, bit_or, Option, none, some, if◌then◌else◌, ltb, ◌==◌, u8, get_or, set,
  ReturnType, e_ok, e_nok,
}
use smart_parking_system_nti.Dio.{set_bit, clear_bit}
use smart_parking_system_nti.Board.{Board}

-- EXTI_ANY_CHANGE and the two edges, after EXTI_LOW_LEVEL
abbrev pub low_level : ℕ
low_level = 0

abbrev pub any_change : ℕ
any_change = 1

abbrev pub falling_edge : ℕ
falling_edge = 2

abbrev pub rising_edge : ℕ
rising_edge = 3

-- the bit of INT0, INT1 and INT2 in GICR and in GIFR
abbrev pub enable_bit : ℕ → ℕ
enable_bit int = if int == 0 then 6 else if int == 1 then 7 else 5

unfoldable pub init : Board → ReturnType × Board
unfolding clear_bit
init b = (
  e_ok,
  record b {
    exti = record (b.exti) { mcucr = 0; mcucsr = clear_bit b.exti.mcucsr 6; gicr = 0; gifr = 0xE0 };
  },
)

unfoldable pub set_sense : Board → ℕ → ℕ → ReturnType × Board
unfolding set_bit clear_bit
set_sense b int sense =
    if ltb rising_edge sense
    then (e_nok, b)
    else if int == 0
    then (
      e_ok,
      record b {
        exti = record (b.exti) { mcucr = bit_or (bit_and b.exti.mcucr (255 - 3)) (u8 sense) };
      },
    )
    else if int == 1
    then (
      e_ok,
      record b {
        exti = record (b.exti) {
          mcucr = bit_or (bit_and b.exti.mcucr (255 - 12)) (u8 (sense * 4));
        };
      },
    )
    else if int == 2
    then (if sense == low_level || sense == any_change
        then (e_nok, b)
        else if sense == falling_edge
        then (e_ok, record b { exti = record (b.exti) { mcucsr = clear_bit b.exti.mcucsr 6 } })
        else (e_ok, record b { exti = record (b.exti) { mcucsr = set_bit b.exti.mcucsr 6 } }))
    else (e_nok, b)

unfoldable pub enable : Board → ℕ → ReturnType × Board
unfolding set_bit
enable b int =
    if ltb 2 int
    then (e_nok, b)
    else (e_ok, record b { exti = record (b.exti) { gicr = set_bit b.exti.gicr (enable_bit int) } })

unfoldable pub disable : Board → ℕ → ReturnType × Board
unfolding clear_bit
disable b int = if ltb 2 int then (e_nok, b) else (
  e_ok,
  record b { exti = record (b.exti) { gicr = clear_bit b.exti.gicr (enable_bit int) } },
)

-- a flag is cleared by writing its bit as 1
unfoldable pub clear_flag : Board → ℕ → ReturnType × Board
unfolding set_bit
clear_flag b int =
    if ltb 2 int
    then (e_nok, b)
    else (e_ok, record b { exti = record (b.exti) { gifr = set_bit 0 (enable_bit int) } })

unfoldable pub set_callback : Board → ℕ → Option ℕ → ReturnType × Board
set_callback b int none = (e_nok, b)
set_callback b int (some f) = if ltb 2 int then (e_nok, b) else (
  e_ok,
  record b { exti = record (b.exti) { callbacks = set b.exti.callbacks int (some f) } },
)

-- an interrupt: the function that it calls
unfoldable pub on_interrupt : Board → ℕ → Option ℕ
on_interrupt b int = get_or b.exti.callbacks int none
