-- ===== src/Lcd/Screen.antt =====
-- The display that the bytes of HAL/lcd/lcd_i2c.c reach: a memory of characters with a cursor that
-- moves on after each character, as the controller documents it.
use smart_parking_system_nti.Prelude.{
  ℕ, zero, suc, ◌+◌, ◌-◌, ◌%◌, ◌*◌, ◌/◌, ◌≤◌, ◌<◌, ◌≡◌, refl, sym, ap, subst, ◌∙◌, ◌⊎◌, inl, inr,
  true, false, ◌==◌, ◌&&◌, ltb, leb, if◌then◌else◌, Bool-cases, List, get_or, ReturnType, e_ok,
  e_nok, on_ok, arith, all_below, agree_below,
}
use smart_parking_system_nti.Lcd.{
  Bus, send_command, write_char, send_chars, send_run, cursor_command, row_address,
}

pub record Memory : Type 0 where
  pub address : ℕ
  pub cells : ℕ → ℕ

abbrev pub jump : Memory → ℕ → Memory
jump m a = record m { address = a }

abbrev pub put : Memory → ℕ → Memory
put m c = record { address = m.address + 1; cells = λ k. if k == m.address then c else m.cells k }

-- a bus at whose end such a display answers, while the bus is ready between two transactions: a
-- command with the high bit set moves the cursor, and a character goes to the cursor, both in the 16
-- columns of either row
pub record Drives {S : Type 0} (bus : Bus S) (shown : S → Memory) (Ready : S → Type 0)
    : Type 0 where
  pub command :
      (s : S) (a : ℕ)
      → Ready s
      → a < 80
      → a % 64 < 16
      → ((send_command bus s (128 + a)).0 ≡ e_ok)
        × (shown (send_command bus s (128 + a)).1 ≡ jump (shown s) a)
        × Ready (send_command bus s (128 + a)).1
  pub char :
      (s : S) (c : ℕ)
      → Ready s
      → c < 256
      → (shown s).address < 80
      → (shown s).address % 64 < 16
      → ((write_char bus s c).0 ≡ e_ok)
        × (shown (write_char bus s c).1 ≡ put (shown s) c)
        × Ready (write_char bus s c).1

-- every character of a line is a byte
abbrev pub AreBytes : List ℕ → Type 0
AreBytes line = (k : ℕ) → get_or line k 0 < 256

-- the columns from `lo` to `hi`, exclusive, of the row at `base` now show the line
abbrev pub Wrote : ℕ → List ℕ → ℕ → ℕ → Memory → Memory → Type 0
Wrote base line lo hi m m' =
    (k : ℕ)
    → m'.cells k
      ≡ (if leb (base + lo) k && ltb k (base + hi) then get_or line (k - base) 0 else m.cells k)

pub on_ok_of {ℓ} :
    {S : Type ℓ} (r : ReturnType × S) (f : S → ReturnType × S) → r.0 ≡ e_ok → on_ok r f ≡ f r.1
on_ok_of (e_ok, s) f h = refl
on_ok_of (e_nok, s) f h = absurd (ground arith)

cursor_table :
    all_below 32 (λ q. cursor_command (q / 16) (q % 16) == 128 + (row_address (q / 16) + q % 16))
    ≡ true
unfolding all_below
cursor_table = refl

pub cursor_command_lem :
    (row col : ℕ) → row < 2 → col < 16 → cursor_command row col ≡ 128 + (row_address row + col)
cursor_command_lem row col r c =
    let q = row * 16 + col in
    let row_of : q / 16 ≡ row = omega arith in
    let col_of : q % 16 ≡ col = omega arith in
    let at_q =
      agree_below 32 (λ x. cursor_command (x / 16) (x % 16))
        (λ x. 128 + (row_address (x / 16) + x % 16)) cursor_table q (omega arith) in
    sym (λ k. cursor_command (row_of k) (col_of k)) ∙ at_q ∙ λ k.
    128 + (row_address (row_of k) + col_of k)

pub row_address-cases : (row : ℕ) → (row_address row ≡ 0) ⊎ (row_address row ≡ 64)
row_address-cases row = ground arith

-- one more character at the cursor
Wrote-step :
    (base : ℕ) (line : List ℕ) (col n : ℕ) (m m1 m2 : Memory)
    → ((k : ℕ) → m1.cells k ≡ (if k == base + col then get_or line col 0 else m.cells k))
    → Wrote base line (col + 1) (col + 1 + n) m1 m2
    → Wrote base line col (col + suc n) m m2
Wrote-step base line col n m m1 m2 one rest k =
    let now = one k in
    let later = rest k in
    elim (Bool-cases (k == base + col)) [
      | inl here ↦
          let at : k - base ≡ col = ground arith in
          let look : get_or line (k - base) 0 ≡ get_or line col 0 = ap (λ j. get_or line j 0) at in
          ground arith
      | inr away ↦ ground arith
    ]

module _ {S : Type 0} (bus : Bus S) (shown : S → Memory) (Ready : S → Type 0)
    (drives : Drives bus shown Ready) where
  -- a result that succeeded, wrote the columns from `lo` to `hi` and left the bus ready
  abbrev pub DidWrite : ℕ → List ℕ → ℕ → ℕ → Memory → ReturnType × S → Type 0
  DidWrite base line lo hi m r = (r.0 ≡ e_ok) × Wrote base line lo hi m (shown r.1) × Ready r.1

  send_chars_lem :
      (base : ℕ) (line : List ℕ) (n col : ℕ) (s : S)
      → (base ≡ 0) ⊎ (base ≡ 64)
      → AreBytes line
      → Ready s
      → col + n ≤ 16
      → (shown s).address ≡ base + col
      → DidWrite base line col (col + n) (shown s) (send_chars bus s line col n)
  unfolding send_chars
  send_chars_lem base line zero col s at bytes ready fits cursor = (refl, λ k. ground arith, ready)
  send_chars_lem base line (suc n) col s at bytes ready fits cursor =
      let c = get_or line col 0 in
      let r = write_char bus s c in
      let (ok, put_there, ready') =
        drives.char s c ready (bytes col) (ground arith) (ground arith) in
      let next : S → ReturnType × S = λ s'. send_chars bus s' line (col + 1) n in
      let moved = ap (λ m. m.address) put_there in
      let (ok', wrote, ready'') =
        send_chars_lem base line n (col + 1) r.1 at bytes ready' (omega arith) (omega arith) in
      subst (DidWrite base line col (col + suc n) (shown s)) (sym (on_ok_of r next ok)) (
        ok',
        Wrote-step base line col n (shown s) (shown r.1) (shown (next r.1).1)
            (λ k.
              ap (λ m. m.cells k) put_there
              ∙ ap (λ a. if k == a then c else (shown s).cells k) cursor)
            wrote,
        ready'',
      )

  pub send_run_lem :
      (row : ℕ) (line : List ℕ) (col len : ℕ) (s : S)
      → row < 2
      → AreBytes line
      → Ready s
      → 0 < len
      → col + len ≤ 16
      → DidWrite (row_address row) line col (col + len) (shown s) (send_run bus s row col line len)
  unfolding send_run
  send_run_lem row line col len s hr bytes ready pos fits =
      let base = row_address row in
      let Moves : ℕ → Type 0 = λ cmd.
        ((send_command bus s cmd).0 ≡ e_ok)
        × (shown (send_command bus s cmd).1 ≡ jump (shown s) (base + col))
        × Ready (send_command bus s cmd).1 in
      let r = send_command bus s (cursor_command row col) in
      let next : S → ReturnType × S = λ s'. send_chars bus s' line col len in
      let at = row_address-cases row in
      let (ok, jumped, ready') =
        subst Moves (sym (cursor_command_lem row col hr (omega arith)))
          (drives.command s (base + col) ready (ground arith) (ground arith)) in
      let (ok', wrote, ready'') =
        send_chars_lem base line len col r.1 at bytes ready' fits (ap (λ m. m.address) jumped) in
      let some_run : (len == 0) ≡ false = ground arith in
      rw some_run (
        subst (DidWrite base line col (col + len) (shown s)) (sym (on_ok_of r next ok)) (
          ok',
          subst (λ m. Wrote base line col (col + len) m (shown (next r.1).1)) jumped wrote,
          ready'',
        ))
