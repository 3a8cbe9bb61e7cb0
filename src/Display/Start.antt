-- ===== src/Display/Start.antt =====
-- LCD_Init of HAL/lcd/lcd_i2c.c over the bus of MCAL/i2c/i2c.c, from the reset state of its pins.
use smart_parking_system_nti.Prelude.{
  ℕ, zero, suc, ◌<◌, ◌≡◌, refl, sym, subst, ap, ◌∙◌, List, [], ◌∷◌, length, bit, ReturnType, e_ok,
  e_nok, on_ok, arith,
}
use smart_parking_system_nti.Board.{Board}
use smart_parking_system_nti.Board.I2c
use smart_parking_system_nti.Board.I2c.Lines.{Answers}
use smart_parking_system_nti.Board.I2c.Calls.{init-Hears}
use smart_parking_system_nti.Lcd
use smart_parking_system_nti.Lcd.{Lcd, send_command, send_commands, forget, invalidate_shadow}
use smart_parking_system_nti.Lcd.Screen.{Memory, AreBytes, on_ok_of}
use smart_parking_system_nti.Display.{Panel, i2c_bus}
use smart_parking_system_nti.Display.Wire.{IsReady, frames_of, transaction_lem}
use smart_parking_system_nti.Display.Shown.{InStep}

-- the frames of commands, the newest first, in front of those before them
unfoldable pub commanded : List ℕ → List (List ℕ) → List (List ℕ)
commanded [] frames = frames
commanded (cmd ∷ cmds) frames = commanded cmds ((124 ∷ 0 ∷ cmd ∷ []) ∷ frames)

-- what succeeded, left the bus ready and sent some commands
abbrev GoesWell : List ℕ → List (List ℕ) → ReturnType × Board → Type 0
GoesWell cmds frames r = (r.0 ≡ e_ok) × IsReady r.1 × (frames_of r.1 ≡ commanded cmds frames)

send_commands_lem :
    (cmds : List ℕ) (b : Board)
    → AreBytes cmds
    → IsReady b
    → GoesWell cmds (frames_of b) (send_commands i2c_bus b cmds)
unfolding send_commands send_command commanded
send_commands_lem [] b bytes ready = (refl, ready, refl)
send_commands_lem (cmd ∷ cmds) b bytes ready =
    let r = send_command i2c_bus b cmd in
    let next : Board → ReturnType × Board = λ b'. send_commands i2c_bus b' cmds in
    let (ok, heard_one, ready') = transaction_lem b 0 cmd (omega arith) (bytes 0) ready in
    let (ok', ready'', heard_all) = send_commands_lem cmds r.1 (λ k. bytes (suc k)) ready' in
    subst (GoesWell (cmd ∷ cmds) (frames_of b)) (sym (on_ok_of r next ok))
      (ok', ready'', heard_all ∙ ap (commanded cmds) heard_one)

forget_of :
    (d : Lcd) (r : ReturnType × Board)
    → r.0 ≡ e_ok
    → forget i2c_bus d r ≡ (e_ok, invalidate_shadow d, r.1)
unfolding forget
forget_of d (e_ok, b) h = refl
forget_of d (e_nok, b) h = absurd (ground arith)

-- the registers of the two pins and the wires at reset, with a device that answers
pub record IsReset (b : Board) : Type 0 where
  pub unheard : b.wires.levels ≡ []
  pub ddr_byte : b.dio.c.ddr < 256
  pub port_byte : b.dio.c.port < 256
  pub scl_in : bit b.dio.c.ddr 0 ≡ 0
  pub sda_in : bit b.dio.c.ddr 1 ≡ 0
  pub answers : Answers b

all_commands : List ℕ
all_commands =
    Lcd.cmd_function_set ∷ Lcd.cmd_function_set ∷ Lcd.cmd_function_set ∷ Lcd.cmd_display_off
    ∷ Lcd.cmd_clear ∷ Lcd.cmd_entry_mode ∷ Lcd.cmd_display_on ∷ []

all_commands-AreBytes : AreBytes all_commands
unfolding all_commands
all_commands-AreBytes zero = omega arith
all_commands-AreBytes (suc zero) = omega arith
all_commands-AreBytes (suc (suc zero)) = omega arith
all_commands-AreBytes (suc (suc (suc zero))) = omega arith
all_commands-AreBytes (suc (suc (suc (suc zero)))) = omega arith
all_commands-AreBytes (suc (suc (suc (suc (suc zero))))) = omega arith
all_commands-AreBytes (suc (suc (suc (suc (suc (suc zero)))))) = omega arith
all_commands-AreBytes (suc (suc (suc (suc (suc (suc (suc k))))))) = omega arith

begin-ok : (b : Board) → (I2c.init b).0 ≡ e_ok
unfolding I2c.init
begin-ok b = refl

-- From the reset state of the two pins, with nothing heard before and a display that acknowledges
-- every byte, LCD_Init succeeds. What was heard on the two lines is seven commands, newest first:
-- 0x38 (function set) three times, then 0x08 (display off), 0x01 (clear), 0x06 (entry mode) and 0x0C
-- (display on). The shadow is not in use, and the panel agrees with the board as DISPLAY_Task needs.
pub init-InStep :
    (execute : Memory → List ℕ → Memory) (first : Memory) (p : Panel) (b : Board)
    → IsReset b
    → length p.lcd.shadow ≡ 2
    → let (r, d, b') = Lcd.init i2c_bus p.lcd b in
      (r ≡ e_ok)
      × (frames_of b'
          ≡ (0x7C ∷ 0 ∷ 0x0C ∷ [])
            ∷ (0x7C ∷ 0 ∷ 0x06 ∷ [])
            ∷ (0x7C ∷ 0 ∷ 0x01 ∷ [])
            ∷ (0x7C ∷ 0 ∷ 0x08 ∷ [])
            ∷ (0x7C ∷ 0 ∷ 0x38 ∷ [])
            ∷ (0x7C ∷ 0 ∷ 0x38 ∷ [])
            ∷ (0x7C ∷ 0 ∷ 0x38 ∷ [])
            ∷ [])
      × (d.valid ≡ 0)
      × InStep execute first (record p { lcd = d }) b'
unfolding Lcd.init all_commands commanded
init-InStep execute first p b reset rows =
    let s = I2c.init b in
    let next : Board → ReturnType × Board = λ b'. send_commands i2c_bus b' all_commands in
    let begun_hears =
      init-Hears b reset.unheard reset.ddr_byte reset.port_byte reset.scl_in reset.sda_in
        reset.answers in
    let begun : IsReady s.1 = record {
      shift = 0;
      count = 0;
      bytes = [];
      frames = [];
      hears = begun_hears;
    } in
    let silent : frames_of s.1 ≡ [] = ap (λ q. q.frames) begun_hears.heard_all in
    let whole : GoesWell all_commands (frames_of s.1) (on_ok s next) =
      subst (GoesWell all_commands (frames_of s.1)) (sym (on_ok_of s next (begin-ok b)))
        (send_commands_lem all_commands s.1 all_commands-AreBytes begun) in
    let Agree : ReturnType × Lcd × Board → Type 0 = λ t.
      (t.0 ≡ e_ok)
      × (frames_of t.2 ≡ commanded all_commands [])
      × (t.1.valid ≡ 0)
      × InStep execute first (record p { lcd = t.1 }) t.2 in
    subst Agree (sym (forget_of p.lcd (on_ok s next) whole.0)) (
      refl,
      whole.2 ∙ ap (commanded all_commands) silent,
      unfold invalidate_shadow in refl,
      unfold invalidate_shadow in
          record { ready = whole.1; rows = rows; agrees = λ v. absurd (v refl) },
    )
