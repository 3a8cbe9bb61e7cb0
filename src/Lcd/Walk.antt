-- ===== src/Lcd/Walk.antt =====
-- The walk of LCD_Paint in HAL/lcd/lcd_i2c.c over a line: only runs of changed characters are sent.
use smart_parking_system_nti.Prelude.{
  ℕ, zero, suc, ◌+◌, ◌-◌, ◌≤◌, ◌<◌, ◌≡◌, ◌≢◌, refl, sym, ap, subst, ◌∙◌, true, false, ◌==◌, ◌!=◌,
  ◌&&◌, ◌||◌, ltb, if◌then◌else◌, Bool-cases, inl, inr, List, [], get_or, u8, ReturnType, e_ok,
  arith,
}
use smart_parking_system_nti.Lcd.{Bus, Lcd, differs, round, walk, send_run, row_address}
use smart_parking_system_nti.Lcd.Screen.{
  Memory, Drives, AreBytes, Wrote, DidWrite, send_run_lem, on_ok_of,
}

-- what the module believes of a row of the display
abbrev pub IsShadow : Lcd → ℕ → Memory → Type 0
IsShadow d row m =
    d.valid ≢ 0
    → (k : ℕ) → k < 16
    → get_or (get_or d.shadow row []) k 0 ≡ m.cells (row_address row + k)

Wrote-trans :
    (base : ℕ) (line : List ℕ) (lo hi : ℕ) (m m1 m2 : Memory)
    → lo ≤ hi
    → Wrote base line 0 lo m m1
    → Wrote base line lo hi m1 m2
    → Wrote base line 0 hi m m2
Wrote-trans base line lo hi m m1 m2 le first rest k =
    let before = first k in let after = rest k in ground arith

-- a column that shows the line's character already
Wrote-same :
    (base : ℕ) (line : List ℕ) (col : ℕ) (m m1 : Memory)
    → get_or line col 0 ≡ m.cells (base + col)
    → Wrote base line 0 col m m1
    → Wrote base line 0 (col + 1) m m1
Wrote-same base line col m m1 shown first k =
    let before = first k in
    elim (Bool-cases (k == base + col)) [
      | inl here ↦
          let at : k - base ≡ col = ground arith in
          let at' : k ≡ base + col = ground arith in
          let look : get_or line (k - base) 0 ≡ m.cells k =
            ap (λ j. get_or line j 0) at ∙ shown ∙ sym (ap m.cells at') in
          ground arith
      | inr away ↦ ground arith
    ]

-- how many columns are settled when the walk is at `col`, with a run open from `start` or none at 16
abbrev settled : ℕ → ℕ → ℕ
settled col start = if start == 16 then (if ltb col 16 then col else 16) else start

unchanged :
    (col valid new old cell : ℕ)
    → (ltb col 16 && (valid == 0 || new != old)) ≡ false
    → col < 16
    → (valid ≢ 0 → old ≡ cell)
    → new ≡ cell
unchanged col valid new old cell h small shown = ground arith

module _ (d : Lcd) (row : ℕ) (line : List ℕ) (col : ℕ) where
  differs-in : differs d row line col ≡ true → col < 16
  unfolding differs
  differs-in h = ground arith

  same-shown :
      (m : Memory)
      → IsShadow d row m
      → differs d row line col ≡ false
      → col < 16
      → get_or line col 0 ≡ m.cells (row_address row + col)
  unfolding differs
  same-shown m shadow h small =
      unchanged col d.valid (get_or line col 0) (get_or (get_or d.shadow row []) col 0)
        (m.cells (row_address row + col)) h small (λ v. shadow v col small)

module _ {S : Type 0} (bus : Bus S) (s : S) (d : Lcd) (row : ℕ) (line : List ℕ)
    (col start : ℕ) where
  round-open :
      differs d row line col ≡ true
      → (start == 16) ≡ true
      → round bus s d row line col start ≡ ((e_ok, s), col)
  unfolding round
  round-open h e = rw (h, e) refl

  round-run :
      differs d row line col ≡ true
      → (start == 16) ≡ false
      → round bus s d row line col start ≡ ((e_ok, s), start)
  unfolding round
  round-run h e = rw (h, e) refl

  round-skip :
      differs d row line col ≡ false
      → (start != 16) ≡ false
      → round bus s d row line col start ≡ ((e_ok, s), start)
  unfolding round
  round-skip h e = rw (h, e) refl

  round-close :
      differs d row line col ≡ false
      → (start != 16) ≡ true
      → round bus s d row line col start
        ≡ (send_run bus s row start line (u8 (col + 256 - start)), 16)
  unfolding round
  round-close h e = rw (h, e) refl

module _ {S : Type 0} (bus : Bus S) (shown : S → Memory) (Ready : S → Type 0)
    (drives : Drives bus shown Ready) (d : Lcd) (row : ℕ) (line : List ℕ) (m : Memory)
    (in_rows : row < 2) (bytes : AreBytes line) (shadow : IsShadow d row m) where
  -- the walk at `col`: a run is open from before it, or none is, and what is settled is shown
  abbrev At : ℕ → ℕ → S → Type 0
  At col start s =
      (start ≤ 16)
      × (start < 16 → start < col)
      × (col ≡ 17 → start ≡ 16)
      × Wrote (row_address row) line 0 (settled col start) m (shown s)
      × Ready s

  -- a round that succeeded
  abbrev GoesOn : ℕ → (ReturnType × S) × ℕ → Type 0
  GoesOn col r = (r.0.0 ≡ e_ok) × At (col + 1) r.1 r.0.1

  -- with no run open, one more column is settled if it is one that shows its character
  settle_col :
      (col : ℕ) (s : S)
      → col ≤ 16
      → differs d row line col ≡ false
      → Wrote (row_address row) line 0 col m (shown s)
      → Wrote (row_address row) line 0 (settled (col + 1) 16) m (shown s)
  settle_col col s le same wrote =
      let base = row_address row in
      elim (Bool-cases (ltb col 16)) [
        | inl small ↦
            let in_line : col < 16 = ground arith in
            let all : col + 1 ≡ settled (col + 1) 16 = ground arith in
            subst (λ n. Wrote base line 0 n m (shown s)) all
              (Wrote-same base line col m (shown s)
                (same-shown d row line col m shadow same in_line) wrote)
        | inr large ↦
            let all : col ≡ settled (col + 1) 16 = ground arith in
            subst (λ n. Wrote base line 0 n m (shown s)) all wrote
      ]

  -- the end of a run
  close_run :
      (col start : ℕ) (s : S)
      → start < col
      → col ≤ 16
      → differs d row line col ≡ false
      → Wrote (row_address row) line 0 start m (shown s)
      → Ready s
      → GoesOn col (send_run bus s row start line (u8 (col + 256 - start)), 16)
  close_run col start s lt le same wrote ready =
      let base = row_address row in
      let len : u8 (col + 256 - start) ≡ col - start = omega arith in
      let end : start + (col - start) ≡ col = omega arith in
      let r = send_run bus s row start line (col - start) in
      let (ok, more, ready') =
        send_run_lem bus shown Ready drives row line start (col - start) s in_rows bytes ready
          (omega arith) (omega arith) in
      let to_col = subst (λ n. Wrote base line start n (shown s) (shown r.1)) end more in
      let all =
        Wrote-trans base line start col m (shown s) (shown r.1) (omega arith) wrote to_col in
      subst (λ n. GoesOn col (send_run bus s row start line n, 16)) (sym len)
        (
          ok,
          (
            omega arith,
            λ h. absurd (omega arith),
            λ h. refl,
            settle_col col r.1 le same all,
            ready',
          ),
        )

  round_lem :
      (col start : ℕ) (s : S)
      → col ≤ 16
      → At col start s
      → GoesOn col (round bus s d row line col start)
  round_lem col start s le (small, opened, ended, wrote, ready) =
      let base = row_address row in
      let Shown : ℕ → Type 0 = λ n. Wrote base line 0 n m (shown s) in
      elim (Bool-cases (differs d row line col)) [
        | inl new ↦
            let in_line = differs-in d row line col new in
            elim (Bool-cases (start == 16)) [
              | inl none ↦
                  let same_part : settled col start ≡ settled (col + 1) col = ground arith in
                  subst (GoesOn col) (sym (round-open bus s d row line col start new none)) (
                    refl,
                    (
                      le,
                      λ h. omega arith,
                      λ h. absurd (omega arith),
                      subst Shown same_part wrote,
                      ready,
                    ),
                  )
              | inr run ↦
                  let same_part : settled col start ≡ settled (col + 1) start = ground arith in
                  let before : start < 16 = ground arith in
                  let earlier = opened before in
                  subst (GoesOn col) (sym (round-run bus s d row line col start new run)) (
                    refl,
                    (
                      small,
                      λ h. omega arith,
                      λ h. absurd (omega arith),
                      subst Shown same_part wrote,
                      ready,
                    ),
                  )
            ]
        | inr same ↦ elim (Bool-cases (start != 16)) [
          | inl run ↦
              let before : start < 16 = ground arith in
              let part : settled col start ≡ start = ground arith in
              subst (GoesOn col) (sym (round-close bus s d row line col start same run))
                (close_run col start s (opened before) le same (subst Shown part wrote) ready)
          | inr none ↦
              let at_end : start ≡ 16 = ground arith in
              let part : settled col start ≡ col = ground arith in
              subst (GoesOn col) (sym (round-skip bus s d row line col start same none)) (
                refl,
                (
                  small,
                  λ h. absurd (omega arith),
                  λ h. at_end,
                  subst (λ n. Wrote base line 0 (settled (col + 1) n) m (shown s)) (sym at_end)
                      (settle_col col s le same (subst Shown part wrote)),
                  ready,
                ),
              )
        ]
      ]

  pub walk_lem :
      (left col start : ℕ) (s : S)
      → col + left ≡ 17
      → At col start s
      → DidWrite bus shown Ready drives
          (row_address row)
          line
          0
          16
          m
          (walk bus s d row line left col start)
  unfolding walk
  walk_lem zero col start s rounds (small, opened, ended, wrote, ready) =
      let all : settled col start ≡ 16 = ground arith in
      (refl, subst (λ n. Wrote (row_address row) line 0 n m (shown s)) all wrote, ready)
  walk_lem (suc left) col start s rounds at =
      let r = round bus s d row line col start in
      let next : S → ReturnType × S = λ s'. walk bus s' d row line left (col + 1) r.1 in
      let (ok, at') = round_lem col start s (omega arith) at in
      subst (DidWrite bus shown Ready drives (row_address row) line 0 16 m)
        (sym (on_ok_of r.0 next ok)) (walk_lem left (col + 1) r.1 r.0.1 (omega arith) at')
