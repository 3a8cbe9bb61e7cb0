-- ===== src/Lcd/Paint.antt =====
-- What LCD_Paint in HAL/lcd/lcd_i2c.c leaves on the display and in its shadow.
use smart_parking_system_nti.Prelude.{
  ℕ, zero, suc, ◌+◌, ◌-◌, ◌<◌, ◌≤◌, ◌≡◌, ◌≢◌, refl, sym, ap, subst, ◌∙◌, true, false, ◌&&◌, ltb,
  leb, if◌then◌else◌, ◌⊎◌, List, [], ◌∷◌, length, length-set, choose, get_or, get_or-set_self,
  get_or-set_ne, some, ReturnType, e_ok, e_nok, arith,
}
use smart_parking_system_nti.Lcd.{Bus, Lcd, walk, row_address, line_image, remember, painted, paint}
use smart_parking_system_nti.Lcd.Screen.{Memory, Drives, AreBytes, Wrote}
use smart_parking_system_nti.Lcd.Walk.{IsShadow, walk_lem}

-- the shadow of a row is what the display shows
abbrev pub Agrees : Lcd → ℕ → Memory → Type 0
Agrees d row m =
    (k : ℕ) → k < 16 → get_or (get_or d.shadow row []) k 0 ≡ m.cells (row_address row + k)

-- the display shows a text, padded, in a row
abbrev pub Displays : ℕ → List ℕ → Memory → Type 0
Displays row text m =
    (k : ℕ) → k < 16 → m.cells (row_address row + k) ≡ get_or (line_image text 16) k 0

-- padding and cutting leave bytes
AreBytes-line_image : (text : List ℕ) (left : ℕ) → AreBytes text → AreBytes (line_image text left)
unfolding line_image
AreBytes-line_image text zero bytes k = omega arith
AreBytes-line_image [] (suc left) bytes zero = omega arith
AreBytes-line_image [] (suc left) bytes (suc k) = AreBytes-line_image [] left bytes k
AreBytes-line_image (c ∷ text) (suc left) bytes zero = ground (arith, bytes 0)
AreBytes-line_image (c ∷ text) (suc left) bytes (suc k) = ground (
  arith,
  AreBytes-line_image [] left (λ j. omega arith) k,
  AreBytes-line_image text left (λ j. bytes (suc j)) k,
)

in_row : (base k : ℕ) → k < 16 → (leb (base + 0) (base + k) && ltb (base + k) (base + 16)) ≡ true
in_row base k h = ground arith

out_of_row :
    (base k : ℕ) → (k < base) ⊎ (base + 16 ≤ k) → (leb (base + 0) k && ltb k (base + 16)) ≡ false
out_of_row base k h = ground arith

Wrote-shown :
    (base : ℕ) (line : List ℕ) (m m' : Memory)
    → Wrote base line 0 16 m m'
    → (k : ℕ) → k < 16
    → m'.cells (base + k) ≡ get_or line k 0
Wrote-shown base line m m' wrote k h =
    let at : base + k - base ≡ k = omega arith in
    let now = wrote (base + k) in
    let look = ap (λ j. get_or line j 0) at in
    subst
      (λ t.
        m'.cells (base + k) ≡ (if t then get_or line (base + k - base) 0 else m.cells (base + k)))
      (in_row base k h) now
    ∙ look

Wrote-kept :
    (base : ℕ) (line : List ℕ) (m m' : Memory)
    → Wrote base line 0 16 m m'
    → (k : ℕ) → (k < base) ⊎ (base + 16 ≤ k)
    → m'.cells k ≡ m.cells k
Wrote-kept base line m m' wrote k h =
    subst (λ t. m'.cells k ≡ (if t then get_or line (k - base) 0 else m.cells k))
      (out_of_row base k h) (wrote k)

module _ {S : Type 0} (bus : Bus S) where
  painted_of :
      (d : Lcd) (row : ℕ) (line : List ℕ) (r : ReturnType × S)
      → r.0 ≡ e_ok
      → painted bus d row line r ≡ (e_ok, remember d row line, r.1)
  unfolding painted
  painted_of d row line (e_ok, s) h = refl
  painted_of d row line (e_nok, s) h = absurd (ground arith)

  length-painted :
      (d : Lcd) (row : ℕ) (line : List ℕ) (r : ReturnType × S)
      → length (painted bus d row line r).1.shadow ≡ length d.shadow
  unfolding painted remember
  length-painted d row line (e_ok, s) = length-set d.shadow row line
  length-painted d row line (e_nok, s) = refl

  paint_of :
      (d : Lcd) (s : S) (row : ℕ) (text : List ℕ)
      → row < 2
      → paint bus d s row (some text)
        ≡ painted bus d row (line_image text 16) (walk bus s d row (line_image text 16) 17 0 16)
  unfolding paint
  paint_of d s row text h =
      let line = line_image text 16 in
      let inside : leb 2 row ≡ false = ground arith in
      ap (λ t. if t then (e_nok, d, s) else painted bus d row line (walk bus s d row line 17 0 16))
        inside

  -- a result that painted a row of a display that showed `m`
  abbrev pub Paints :
      (S → Memory) → (S → Type 0) → Lcd → ℕ → List ℕ → Memory → ReturnType × Lcd × S → Type 0
  Paints shown Ready d row text m r =
      (r.0 ≡ e_ok)
      × Ready r.2
      × Displays row text (shown r.2)
      × ((k : ℕ)
          → (k < row_address row) ⊎ (row_address row + 16 ≤ k)
          → (shown r.2).cells k ≡ m.cells k)
      × Agrees r.1 row (shown r.2)
      × ((other : ℕ) → other < 2 → other ≢ row → Agrees d other m → Agrees r.1 other (shown r.2))

  -- the shadow keeps its size
  pub length-paint :
      (d : Lcd) (s : S) (row : ℕ) (text : List ℕ)
      → length (paint bus d s row (some text)).1.shadow ≡ length d.shadow
  unfolding paint
  length-paint d s row text =
      let line = line_image text 16 in
      choose (λ (r : ReturnType × Lcd × S). length r.1.shadow ≡ length d.shadow) (leb 2 row) refl
        (length-painted d row line (walk bus s d row line 17 0 16))

  valid-painted :
      (d : Lcd) (line : List ℕ) (r : ReturnType × S) → (painted bus d 0 line r).1.valid ≡ d.valid
  unfolding painted remember
  valid-painted d line (e_ok, s) = refl
  valid-painted d line (e_nok, s) = refl

  -- the first row does not bring the shadow into use
  pub valid-paint :
      (d : Lcd) (s : S) (text : List ℕ) → (paint bus d s 0 (some text)).1.valid ≡ d.valid
  unfolding paint
  valid-paint d s text =
      let line = line_image text 16 in valid-painted d line (walk bus s d 0 line 17 0 16)

  apart :
      (row other k : ℕ)
      → row < 2
      → other < 2
      → other ≢ row
      → k < 16
      → (row_address other + k < row_address row) ⊎ (row_address row + 16 ≤ row_address other + k)
  apart row other k hr ho ne hk = ground arith

  -- On a ready bus with a display that answers, LCD_Paint of either row with a text of bytes succeeds
  -- and leaves the bus ready. The row then shows the text, cut to 16 characters or padded with spaces,
  -- although only changed characters were sent; no other cell of the display changes; the shadow of
  -- the row is what it shows, and the shadow of the other row is right if it was. It needs the shadow
  -- of the row to be right where it is in use.
  pub paint_lem :
      (shown : S → Memory) (Ready : S → Type 0) (d : Lcd) (s : S) (row : ℕ) (text : List ℕ)
      → Drives bus shown Ready
      → Ready s
      → row < 2
      → AreBytes text
      → length d.shadow ≡ 2
      → IsShadow d row (shown s)
      → Paints shown Ready d row text (shown s) (paint bus d s row (some text))
  unfolding remember
  paint_lem shown Ready d s row text drives ready hr bytes two shadow =
      let base = row_address row in
      let line = line_image text 16 in
      let r = walk bus s d row line 17 0 16 in
      let (ok, wrote, ready') =
        walk_lem bus shown Ready drives d row line (shown s) hr (AreBytes-line_image text 16 bytes)
          shadow 17 0 16 s (omega arith)
          (omega arith, λ h. absurd (omega arith), λ h. refl, λ k. ground arith, ready) in
      let shows = Wrote-shown base line (shown s) (shown r.1) wrote in
      let kept = Wrote-kept base line (shown s) (shown r.1) wrote in
      subst (Paints shown Ready d row text (shown s))
        (sym (paint_of d s row text hr ∙ painted_of d row line r ok))
        (
          refl,
          ready',
          shows,
          kept,
          λ k h.
              ap (λ l. get_or l k 0) (get_or-set_self d.shadow row line [] (omega arith))
              ∙ sym (shows k h),
          λ other ho ne agrees k h.
              ap (λ l. get_or l k 0) (get_or-set_ne d.shadow line [] (λ e. ne (sym e)))
              ∙ agrees k h
              ∙ sym (kept (row_address other + k) (apart row other k hr ho ne h)),
        )
