-- ===== src/Main/Assemble.antt =====
-- What a line that is typed comes to, byte by byte (Task_Console in main.c).
use mathlib.Core.List.{append-nil, append_assoc}
use smart_parking_system_nti.Prelude.{
  ℕ, ◌+◌, ◌≤◌, ◌<◌, ◌≡◌, ◌≢◌, refl, sym, ap, subst, ◌∙◌, true, false, ◌==◌, ◌||◌, ltb, some, List,
  [], ◌∷◌, ◌++◌, length, length-append, Bool-cases, inl, inr, arith,
}
use smart_parking_system_nti.Text.{codes, c_string}
use smart_parking_system_nti.Ticketing.{crlf}
use smart_parking_system_nti.Console.{parse_line}
use smart_parking_system_nti.Main.{System, send}
use smart_parking_system_nti.Main.Line.{submit, end_line, accept}

-- bytes received one after the other
unfoldable pub feed : List ℕ → System → System
feed [] y = y
feed (c ∷ text) y = feed text (accept y c)

-- no byte ends a line
abbrev pub IsPlain : List ℕ → Type 0
IsPlain [] = Unit {0}
IsPlain (c ∷ text) = ((c ≢ b'\r') × (c ≢ b'\n')) × IsPlain text

-- the program with a line in the assembler
abbrev pub holding : System → List ℕ → ℕ → System
holding y l o = record y { glue = record (y.glue) { line = l; line_overflow = o } }

not_end : (c : ℕ) → c ≢ b'\r' → c ≢ b'\n' → (c == b'\r' || c == b'\n') ≡ false
not_end c cr lf = ground arith

module _ (y : System) where
  accept_room :
      (l : List ℕ) (o c : ℕ)
      → c ≢ b'\r'
      → c ≢ b'\n'
      → ltb (length l) 24 ≡ true
      → accept (holding y l o) c ≡ holding y (l ++ (c ∷ [])) o
  unfolding accept
  accept_room l o c cr lf room = rw (not_end c cr lf, room) refl

  accept_full :
      (l : List ℕ) (o c : ℕ)
      → c ≢ b'\r'
      → c ≢ b'\n'
      → ltb (length l) 24 ≡ false
      → accept (holding y l o) c ≡ holding y l 1
  unfolding accept
  accept_full l o c cr lf full = rw (not_end c cr lf, full) refl

  has_room : (l : List ℕ) → length l < 24 → ltb (length l) 24 ≡ true
  has_room l h = ground arith

  no_room : (l : List ℕ) → 24 ≤ length l → ltb (length l) 24 ≡ false
  no_room l h = ground arith

  feed_short :
      (text l : List ℕ) (o : ℕ)
      → IsPlain text
      → length l + length text ≤ 24
      → feed text (holding y l o) ≡ holding y (l ++ text) o
  unfolding feed
  feed_short [] l o plain h = ap (λ l'. holding y l' o) (sym (append-nil l))
  feed_short (c ∷ text) l o ((cr, lf), plain) h =
      let l' = l ++ (c ∷ []) in
      let len = length-append l (c ∷ []) in
      ap (feed text) (accept_room l o c cr lf (has_room l (omega arith)))
      ∙ feed_short text l' o plain (omega arith)
      ∙ ap (λ k. holding y k o) (append_assoc l (c ∷ []) text)

  feed_full :
      (text l : List ℕ) → IsPlain text → 24 ≤ length l → feed text (holding y l 1) ≡ holding y l 1
  unfolding feed
  feed_full [] l plain h = refl
  feed_full (c ∷ text) l ((cr, lf), plain) h =
      ap (feed text) (accept_full l 1 c cr lf (no_room l h)) ∙ feed_full text l plain h

  feed_long :
      (text l : List ℕ) (o : ℕ)
      → IsPlain text
      → length l ≤ 24
      → 24 < length l + length text
      → (kept : List ℕ) × (feed text (holding y l o) ≡ holding y kept 1)
  unfolding feed
  feed_long [] l o plain fits h = absurd (omega arith)
  feed_long (c ∷ text) l o ((cr, lf), plain) fits h =
      let l' = l ++ (c ∷ []) in
      let len = length-append l (c ∷ []) in
      elim (Bool-cases (ltb (length l) 24)) [
        | inl room ↦
            let (kept, same) = feed_long text l' o plain (ground arith) (omega arith) in
            (kept, ap (feed text) (accept_room l o c cr lf room) ∙ same)
        | inr full ↦ (
          l,
          ap (feed text) (accept_full l o c cr lf full) ∙ feed_full text l plain (ground arith),
        )
      ]

feed-append : (xs ys : List ℕ) (y : System) → feed (xs ++ ys) y ≡ feed ys (feed xs y)
unfolding feed
feed-append [] ys y = refl
feed-append (c ∷ xs) ys y = feed-append xs ys (accept y c)

-- what a line with its end does to a program that has nothing in its assembler
abbrev pub Submits : System → List ℕ → System → Type 0
Submits y text y' =
    let (r, settings, site) = parse_line y.settings y.site y.entry y.exit (some (c_string text)) in
    (0 < length text → length text ≤ 24 → (y'.site ≡ site) × (y'.settings ≡ settings))
    × (24 < length text
        → (y'.site ≡ send y.site (codes "ERR LONG" ++ crlf)) × (y'.settings ≡ y.settings))
    × (length text ≡ 0 → (y'.site ≡ y.site) × (y'.settings ≡ y.settings))
    × (y'.glue ≡ record (y.glue) { line = []; line_overflow = 0 })

module _ (y : System) (text : List ℕ) where
  end_short : length text ≤ 24 → Submits y text (end_line (holding y text 0))
  unfolding end_line submit
  end_short h = elim (Bool-cases (ltb 0 (length text))) [
    | inl pos ↦ rw pos (
      λ some_text fits. (refl, refl),
      λ long. absurd (omega arith),
      λ none. absurd (ground arith),
      refl,
    )
    | inr empty ↦ rw empty (
      λ some_text fits. absurd (ground arith),
      λ long. absurd (omega arith),
      λ none. (refl, refl),
      refl,
    )
  ]

  end_long : 24 < length text → (kept : List ℕ) → Submits y text (end_line (holding y kept 1))
  unfolding end_line submit
  end_long h kept =
      (λ pos fits. absurd (omega arith), λ long. (refl, refl), λ none. absurd (omega arith), refl)

-- With nothing in the assembler, a text of no line ends that is then ended by a carriage return is
-- parsed as one command if it has 1 to 24 characters, is refused with ERR LONG and not parsed if it
-- has more, and does nothing if it is empty; the assembler is empty again in each case.
pub typed_line_lem :
    (y : System) (text : List ℕ)
    → y.glue.line ≡ []
    → y.glue.line_overflow ≡ 0
    → IsPlain text
    → Submits y text (feed (text ++ (b'\r' ∷ [])) y)
unfolding feed accept
typed_line_lem y text no_line no_overflow plain =
    let from : y ≡ holding y [] 0 = λ i. holding y (no_line i) (no_overflow i) in
    let fed : feed (text ++ (b'\r' ∷ [])) y ≡ end_line (feed text (holding y [] 0)) =
      feed-append text (b'\r' ∷ []) y ∙ ap (λ y'. end_line (feed text y')) from in
    elim (Bool-cases (ltb 24 (length text))) [
      | inl long ↦
          let (kept, held) = feed_long y text [] 0 plain (omega arith) (ground arith) in
          subst (Submits y text) (sym (fed ∙ ap end_line held))
            (end_long y text (ground arith) kept)
      | inr short ↦
          subst (Submits y text)
            (sym (fed ∙ ap end_line (feed_short y text [] 0 plain (ground arith))))
            (end_short y text (ground arith))
    ]
