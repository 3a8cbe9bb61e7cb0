-- ===== src/Lcd.antt =====
-- HAL/lcd/lcd_i2c.c: the two-line character display. The bus is an interface, which MCAL/i2c/i2c.c
-- fills; delays have no effect on the state. A text is its characters, with or without what follows
-- the NUL.
pub mod Screen
pub mod Walk
pub mod Keeps
pub mod Paint
use smart_parking_system_nti.Prelude.{
  ℕ, zero, suc, ◌+◌, ◌-◌, ◌*◌, Bool, ◌&&◌, ◌||◌, not, bit_or, Option, none, some, List, [], ◌∷◌,
  if◌then◌else◌, ltb, leb, ◌==◌, ◌!=◌, u8, get_or, set, ReturnType, e_ok, e_nok, on_ok,
}

-- I2C_Init, I2C_Start, I2C_Stop and I2C_Write on the state of the bus
pub record Bus (S : Type 0) : Type 0 where
  pub begin : S → ReturnType × S
  pub start : S → ReturnType × S
  pub stop : S → ReturnType × S
  pub write : S → ℕ → ReturnType × S

abbrev pub lcd_address : ℕ
lcd_address = 0x3E

abbrev pub ctrl_command : ℕ
ctrl_command = 0x00

abbrev pub ctrl_data : ℕ
ctrl_data = 0x40

abbrev pub lcd_cols : ℕ
lcd_cols = 16

abbrev pub lcd_rows : ℕ
lcd_rows = 2

-- the instruction set of the controller
abbrev pub cmd_clear : ℕ
cmd_clear = 0x01

abbrev pub cmd_entry_mode : ℕ
cmd_entry_mode = 0x06

abbrev pub cmd_display_off : ℕ
cmd_display_off = 0x08

abbrev pub cmd_display_on : ℕ
cmd_display_on = 0x0C

abbrev pub cmd_function_set : ℕ
cmd_function_set = 0x38

abbrev pub cmd_set_ddram : ℕ
cmd_set_ddram = 0x80

-- the module's static variables: `LCD_au8Shadow`, a list for each row, and `LCD_u8ShadowValid`
pub record Lcd : Type 0 where
  pub shadow : List (List ℕ)
  pub valid : ℕ

abbrev pub row_address : ℕ → ℕ
row_address row = if row == 0 then 0x00 else 0x40

-- the operand of `LCD_SendCommand` that moves the cursor
abbrev pub cursor_command : ℕ → ℕ → ℕ
cursor_command row col = u8 (bit_or (bit_or cmd_set_ddram (row_address row)) col)

unfoldable pub invalidate_shadow : Lcd → Lcd
invalidate_shadow d = record d { valid = 0 }

-- the space-padded image of a line, `left` characters of it; a NUL ends the text
unfoldable pub line_image : List ℕ → ℕ → List ℕ
line_image text zero = []
line_image [] (suc left) = b' ' ∷ line_image [] left
line_image (c ∷ text) (suc left) =
    let ended = b' ' ∷ line_image [] left in
    let more = c ∷ line_image text left in if c == 0 then ended else more

-- `Local_u8Differs`
unfoldable pub differs : Lcd → ℕ → List ℕ → ℕ → Bool
differs d row line col =
    ltb col lcd_cols && (d.valid == 0 || get_or line col 0 != get_or (get_or d.shadow row []) col 0)

-- the end of LCD_Paint: the shadow takes the line
unfoldable pub remember : Lcd → ℕ → List ℕ → Lcd
remember d row line = record {
  shadow = set d.shadow row line;
  valid = if row == lcd_rows - 1 then 1 else d.valid;
}

module _ {S : Type 0} (bus : Bus S) where
  -- START, address, control byte, byte, STOP: LCD_SendCommand and LCD_WriteChar differ in the control
  -- byte
  unfoldable pub transaction : S → ℕ → ℕ → ReturnType × S
  transaction s control byte = on_ok (bus.start s) λ s1.
      on_ok (bus.write s1 (u8 (lcd_address * 2)))
        λ s2. on_ok (bus.write s2 control) λ s3. on_ok (bus.write s3 byte) λ s4. bus.stop s4

  unfoldable pub send_command : S → ℕ → ReturnType × S
  unfolding transaction
  send_command s cmd = transaction s ctrl_command cmd

  unfoldable pub write_char : S → ℕ → ReturnType × S
  unfolding transaction
  write_char s c = transaction s ctrl_data c

  unfoldable pub set_cursor : S → ℕ → ℕ → ReturnType × S
  unfolding send_command
  set_cursor s row col =
      if leb lcd_rows row || leb lcd_cols col
      then (e_nok, s)
      else send_command s (cursor_command row col)

  -- the loop of LCD_WriteString, `left` characters at most
  unfoldable pub write_text : S → List ℕ → ℕ → ReturnType × S
  unfolding write_char
  write_text s text zero = (e_ok, s)
  write_text s [] (suc left) = (e_ok, s)
  write_text s (c ∷ text) (suc left) =
      let more = on_ok (write_char s c) (λ s'. write_text s' text left) in
      if c == 0 then (e_ok, s) else more

  unfoldable pub write_string : S → Option (List ℕ) → ReturnType × S
  unfolding write_text
  write_string s none = (e_nok, s)
  write_string s (some text) = write_text s text lcd_cols

  -- the loop of LCD_SendRun over `left` characters of the line from `col` on
  unfoldable pub send_chars : S → List ℕ → ℕ → ℕ → ReturnType × S
  unfolding write_char
  send_chars s line col zero = (e_ok, s)
  send_chars s line col (suc left) =
      on_ok (write_char s (get_or line col 0)) (λ s'. send_chars s' line (col + 1) left)

  -- The characters that `Copy_pu8Data` points to are those of the line from `col` on.
  unfoldable pub send_run : S → ℕ → ℕ → List ℕ → ℕ → ReturnType × S
  unfolding send_command send_chars
  send_run s row col line len =
      if len == 0
      then (e_ok, s)
      else on_ok (send_command s (cursor_command row col)) (λ s'. send_chars s' line col len)

  -- one round of the walk over the line: what it sends, and where the open run starts
  unfoldable pub round : S → Lcd → ℕ → List ℕ → ℕ → ℕ → (ReturnType × S) × ℕ
  unfolding differs send_run
  round s d row line col start =
      if differs d row line col && start == lcd_cols
      then ((e_ok, s), col)
      else if not (differs d row line col) && start != lcd_cols
      then (send_run s row start line (u8 (col + 256 - start)), lcd_cols)
      else ((e_ok, s), start)

  -- the walk, `left` rounds
  unfoldable pub walk : S → Lcd → ℕ → List ℕ → ℕ → ℕ → ℕ → ReturnType × S
  unfolding round
  walk s d row line zero col start = (e_ok, s)
  walk s d row line (suc left) col start =
      let (sent, start') = round s d row line col start in
      on_ok sent (λ s'. walk s' d row line left (col + 1) start')

  -- the end of LCD_Paint, from what the walk gives back
  unfoldable pub painted : Lcd → ℕ → List ℕ → ReturnType × S → ReturnType × Lcd × S
  unfolding remember
  painted d row line (e_ok, s) = (e_ok, remember d row line, s)
  painted d row line (e_nok, s) = (e_nok, d, s)

  -- The text is `none` if NULL.
  unfoldable pub paint : Lcd → S → ℕ → Option (List ℕ) → ReturnType × Lcd × S
  unfolding walk painted line_image
  paint d s row none = (e_nok, d, s)
  paint d s row (some text) =
      let line = line_image text lcd_cols in
      if leb lcd_rows row
      then (e_nok, d, s)
      else painted d row line (walk s d row line (lcd_cols + 1) 0 lcd_cols)

  unfoldable pub display_on : S → ℕ → ReturnType × S
  unfolding send_command
  display_on s on = send_command s (if on != 0 then cmd_display_on else cmd_display_off)

  -- LCD_Clear and the end of LCD_Init, from what the last command gives back
  unfoldable pub forget : Lcd → ReturnType × S → ReturnType × Lcd × S
  unfolding invalidate_shadow
  forget d (e_ok, s) = (e_ok, invalidate_shadow d, s)
  forget d (e_nok, s) = (e_nok, d, s)

  unfoldable pub clear : Lcd → S → ReturnType × Lcd × S
  unfolding send_command forget
  clear d s = forget d (send_command s cmd_clear)

  -- commands in a row, up to the first that fails
  unfoldable pub send_commands : S → List ℕ → ReturnType × S
  unfolding send_command
  send_commands s [] = (e_ok, s)
  send_commands s (cmd ∷ cmds) = on_ok (send_command s cmd) (λ s'. send_commands s' cmds)

  unfoldable pub init : Lcd → S → ReturnType × Lcd × S
  unfolding send_commands forget
  init d s = forget d (
      on_ok (bus.begin s) λ s'. send_commands s' (
        cmd_function_set ∷ cmd_function_set ∷ cmd_function_set ∷ cmd_display_off ∷ cmd_clear
        ∷ cmd_entry_mode ∷ cmd_display_on ∷ []))
