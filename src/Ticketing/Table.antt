-- ===== src/Ticketing/Table.antt =====
-- The rows of the ticket table: finding, filling and emptying one.
use smart_parking_system_nti.Prelude.{
  ℕ, zero, suc, ◌+◌, ◌-◌, ◌<◌, ◌≤◌, ◌≡◌, ◌≢◌, refl, sym, ◌∙◌, arith, List, [], ◌∷◌, length, set,
  get_or, ◌==◌, inl, inr, Bool-cases, ==_iff,
}
use smart_parking_system_nti.Ticketing.{
  Ticket, Ticketing, blank, free_row_from, find_free_row, open_rows,
}

module _ {ℓ} (P : Ticket → Type ℓ) where
  abbrev pub All : List Ticket → Type ℓ
  All [] = Unit
  All (t ∷ rows) = P t × All rows

  pub All-set : (rows : List Ticket) (k : ℕ) (t : Ticket) → All rows → P t → All (set rows k t)
  All-set [] k t a p = a
  All-set (x ∷ rows) zero t a p = (p, a.1)
  All-set (x ∷ rows) (suc k) t a p = (a.0, All-set rows k t a.1 p)

  pub All-get : (rows : List Ticket) (k : ℕ) → k < length rows → All rows → P (get_or rows k blank)
  All-get [] k h a = absurd (omega arith)
  All-get (x ∷ rows) zero h a = a.0
  All-get (x ∷ rows) (suc k) h a = All-get rows k (omega arith) a.1

pub open_rows-le : (rows : List Ticket) → open_rows rows ≤ length rows
unfolding open_rows
open_rows-le [] = omega arith
open_rows-le (t ∷ rows) = ground (arith, open_rows-le rows)

-- Filling an empty row opens one more ticket.
pub open_rows-fill :
    (rows : List Ticket) (k : ℕ) (t : Ticket)
    → k < length rows
    → (get_or rows k blank).active ≡ 0
    → t.active ≢ 0
    → open_rows (set rows k t) ≡ open_rows rows + 1
unfolding open_rows
open_rows-fill [] k t h e a = absurd (omega arith)
open_rows-fill (x ∷ rows) zero t h e a = ground arith
open_rows-fill (x ∷ rows) (suc k) t h e a = ground (arith, open_rows-fill rows k t)

-- Emptying an occupied row closes one.
pub open_rows-empty :
    (rows : List Ticket) (k : ℕ) (t : Ticket)
    → k < length rows
    → (get_or rows k blank).active ≢ 0
    → t.active ≡ 0
    → open_rows (set rows k t) + 1 ≡ open_rows rows
unfolding open_rows
open_rows-empty [] k t h e a = absurd (omega arith)
open_rows-empty (x ∷ rows) zero t h e a = ground arith
open_rows-empty (x ∷ rows) (suc k) t h e a = ground (arith, open_rows-empty rows k t)

-- The search answers 6 where every row is taken.
full_table :
    (rows : List Ticket) (index : ℕ) → open_rows rows ≡ length rows → free_row_from rows index ≡ 6
unfolding free_row_from open_rows
full_table [] index h = refl
full_table (t ∷ rows) index h = ground (arith, full_table rows (index + 1), open_rows-le rows)

-- Else it answers a row of the table, and that row is empty.
abbrev FreeAt : List Ticket → ℕ → ℕ → Type 0
FreeAt rows index row =
    (index ≤ row) × (row < index + length rows) × ((get_or rows (row - index) blank).active ≡ 0)

free_row_from_lem :
    (rows : List Ticket) (index : ℕ)
    → open_rows rows < length rows
    → FreeAt rows index (free_row_from rows index)
unfolding free_row_from open_rows
free_row_from_lem [] index h = absurd (omega arith)
free_row_from_lem (t ∷ rows) index h = elim (Bool-cases (t.active == 0)) [
  | inl e ↦
      (let z : index - index ≡ 0 = omega arith in
        rw e (omega arith, omega arith, rw z ((==_iff t.active 0).0 e)))
  | inr e ↦
      (let ih = free_row_from_lem rows (index + 1) (ground arith) in
        let row = free_row_from rows (index + 1) in
        let z : row - index ≡ suc (row - (index + 1)) = omega (arith, ih.0) in
        rw e (omega (arith, ih.0), omega (arith, ih.1), rw z ih.2))
]

-- With six rows, of which fewer than six are taken, the search answers an empty row.
pub find_free_row_lem :
    (t : Ticketing)
    → length t.tickets ≡ 6
    → open_rows t.tickets < 6
    → (find_free_row t < 6) × ((get_or t.tickets (find_free_row t) blank).active ≡ 0)
unfolding find_free_row
find_free_row_lem t size room =
    let (low, high, empty) = free_row_from_lem t.tickets 0 (omega arith) in
    let z : free_row_from t.tickets 0 - 0 ≡ free_row_from t.tickets 0 = omega arith in
    (omega arith, rw z at empty)

pub find_free_row_full :
    (t : Ticketing) → length t.tickets ≡ 6 → open_rows t.tickets ≡ 6 → find_free_row t ≡ 6
unfolding find_free_row
find_free_row_full t size taken = full_table t.tickets 0 (taken ∙ sym size)
