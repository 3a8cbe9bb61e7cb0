-- ===== src/Lcd/Keeps.antt =====
-- What every operation of HAL/lcd/lcd_i2c.c keeps of the bus's state: all that each operation of
-- the bus keeps.
use smart_parking_system_nti.Prelude.{
  ℕ, zero, suc, ◌==◌, ◌!=◌, ◌&&◌, not, leb, choose, some, List, get_or, u8, ◌+◌, ◌-◌, ReturnType,
  e_ok, e_nok, on_ok,
}
use smart_parking_system_nti.Lcd.{
  Bus, Lcd, transaction, send_command, write_char, send_chars, send_run, round, walk, differs,
  cursor_command, painted, paint, line_image,
}

-- what holds of a result's state
abbrev pub Of {ℓ} : {S : Type ℓ} → (S → Type 0) → ReturnType × S → Type 0
Of P r = P r.1

on_ok-keeps {ℓ} :
    {S : Type ℓ} (P : S → Type 0) (r : ReturnType × S) (f : S → ReturnType × S)
    → Of P r
    → ((s : S) → P s → Of P (f s))
    → Of P (on_ok r f)
on_ok-keeps P (e_ok, s) f p keeps = keeps s p
on_ok-keeps P (e_nok, s) f p keeps = p

-- the bus's operations keep a predicate
pub record Keeps {S : Type 0} (bus : Bus S) (P : S → Type 0) : Type 0 where
  pub begin : (s : S) → P s → P (bus.begin s).1
  pub start : (s : S) → P s → P (bus.start s).1
  pub stop : (s : S) → P s → P (bus.stop s).1
  pub write : (s : S) (byte : ℕ) → P s → P (bus.write s byte).1

module _ {S : Type 0} (bus : Bus S) (P : S → Type 0) (keeps : Keeps bus P) where
  transaction-keeps : (s : S) (control byte : ℕ) → P s → P (transaction bus s control byte).1
  unfolding transaction
  transaction-keeps s control byte p = on_ok-keeps P (bus.start s) _ (keeps.start s p) λ s1 p1.
      on_ok-keeps P (bus.write s1 _) _ (keeps.write s1 _ p1) λ s2 p2.
        on_ok-keeps P (bus.write s2 _) _ (keeps.write s2 _ p2)
          λ s3 p3. on_ok-keeps P (bus.write s3 _) _ (keeps.write s3 _ p3) λ s4 p4. keeps.stop s4 p4

  send_chars-keeps : (line : List ℕ) (n col : ℕ) (s : S) → P s → P (send_chars bus s line col n).1
  unfolding send_chars write_char
  send_chars-keeps line zero col s p = p
  send_chars-keeps line (suc n) col s p =
      on_ok-keeps P (write_char bus s (get_or line col 0)) _ (transaction-keeps s _ _ p)
        λ s' p'. send_chars-keeps line n (col + 1) s' p'

  send_run-keeps :
      (row : ℕ) (line : List ℕ) (col len : ℕ) (s : S) → P s → P (send_run bus s row col line len).1
  unfolding send_run send_command
  send_run-keeps row line col len s p = choose (Of P) (len == 0) p (
      on_ok-keeps P (send_command bus s (cursor_command row col)) _ (transaction-keeps s _ _ p)
        λ s' p'. send_chars-keeps line len col s' p')

  round-keeps :
      (d : Lcd) (row : ℕ) (line : List ℕ) (col start : ℕ) (s : S)
      → P s
      → P (round bus s d row line col start).0.1
  unfolding round
  round-keeps d row line col start s p =
      let Kept : (ReturnType × S) × ℕ → Type 0 = λ r. P r.0.1 in
      let new = differs d row line col in
      choose Kept (new && start == 16) p (
        choose Kept (not new && start != 16)
          (send_run-keeps row line start (u8 (col + 256 - start)) s p) p)

  walk-keeps :
      (d : Lcd) (row : ℕ) (line : List ℕ) (left col start : ℕ) (s : S)
      → P s
      → P (walk bus s d row line left col start).1
  unfolding walk
  walk-keeps d row line zero col start s p = p
  walk-keeps d row line (suc left) col start s p =
      let r = round bus s d row line col start in
      on_ok-keeps P r.0 (λ s'. walk bus s' d row line left (col + 1) r.1)
        (round-keeps d row line col start s p)
        λ s' p'. walk-keeps d row line left (col + 1) r.1 s' p'

  painted-keeps :
      (d : Lcd) (row : ℕ) (line : List ℕ) (r : ReturnType × S)
      → P r.1
      → P (painted bus d row line r).2
  unfolding painted
  painted-keeps d row line (e_ok, s) p = p
  painted-keeps d row line (e_nok, s) p = p

  pub paint-keeps :
      (d : Lcd) (s : S) (row : ℕ) (text : List ℕ) → P s → P (paint bus d s row (some text)).2
  unfolding paint
  paint-keeps d s row text p =
      let line = line_image text 16 in
      choose (λ (r : ReturnType × Lcd × S). P r.2) (leb 2 row) p
        (painted-keeps d row line (walk bus s d row line 17 0 16)
          (walk-keeps d row line 17 0 16 s p))
