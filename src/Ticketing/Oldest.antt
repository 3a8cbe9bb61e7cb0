-- ===== src/Ticketing/Oldest.antt =====
-- TKT_CloseOldest on the ticket table (APP/ticketing/ticketing.c).
use smart_parking_system_nti.Prelude.{
  ℕ, suc, ◌+◌, ◌<◌, ◌≤◌, ◌≡◌, ◌≢◌, refl, arith, List, [], ◌∷◌, length, set, get_or, ltb, leb, ◌!=◌,
  ◌&&◌, ◌⊎◌, inl, inr, true, false, Bool-cases, some, ReturnType, e_ok, e_nok, Option,
}
use smart_parking_system_nti.Ticketing.{
  Ticket, Ticketing, blank, open_rows, oldest_row_from, oldest_row, close_oldest,
}
use smart_parking_system_nti.Ticketing.Table.{open_rows-empty}

-- every open ticket entered at `sec` or later
abbrev pub NoneBefore : ℕ → List Ticket → Type 0
NoneBefore sec [] = Unit {0}
NoneBefore sec (t ∷ rows) = (t.active ≢ 0 → sec ≤ t.entry_sec) × NoneBefore sec rows

NoneBefore-le : (a b : ℕ) (rows : List Ticket) → a ≤ b → NoneBefore b rows → NoneBefore a rows
NoneBefore-le a b [] h n = tt
NoneBefore-le a b (t ∷ rows) h n = (λ e. omega (arith, n.0 e), NoneBefore-le a b rows h n.1)

-- what the scan from `index` answers, given what it started with
data Scanned (rows : List Ticket) (index row sec answer : ℕ) : Type 0 where
  kept : answer ≡ row → NoneBefore sec rows → Scanned rows index row sec answer
  moved :
      (k : ℕ)
      → answer ≡ index + k
      → k < length rows
      → (get_or rows k blank).active ≢ 0
      → (get_or rows k blank).entry_sec < sec
      → NoneBefore (get_or rows k blank).entry_sec rows
      → Scanned rows index row sec answer

oldest_row_from_lem :
    (rows : List Ticket) (index row sec : ℕ)
    → Scanned rows index row sec (oldest_row_from rows index row sec)
unfolding oldest_row_from
oldest_row_from_lem [] index row sec = kept refl tt
oldest_row_from_lem (t ∷ rows) index row sec =
    elim (Bool-cases (t.active != 0 && ltb t.entry_sec sec)) [
      | inl older ↦ rw older (elim (oldest_row_from_lem rows (index + 1) index t.entry_sec) [
        | kept e n ↦
            moved 0 (omega arith) (omega arith) (ground arith) (ground arith) (λ a. omega arith, n)
        | moved k e h a lt n ↦
            moved (suc k) (omega arith) (omega arith) a (ground arith) (λ a'. omega arith, n)
      ])
      | inr not_older ↦ rw not_older (elim (oldest_row_from_lem rows (index + 1) row sec) [
        | kept e n ↦ kept e (λ a. ground arith, n)
        | moved k e h a lt n ↦
            moved (suc k) (omega arith) (omega arith) a lt (λ a'. ground arith, n)
      ])
    ]

-- entry times below the sentinel that the scan starts with
abbrev pub AllEarlier : List Ticket → Type 0
AllEarlier [] = Unit {0}
AllEarlier (t ∷ rows) = (t.entry_sec < 0xFFFFFFFF) × AllEarlier rows

none_open : (rows : List Ticket) → AllEarlier rows → NoneBefore 0xFFFFFFFF rows → open_rows rows ≡ 0
unfolding open_rows
none_open [] e n = refl
none_open (t ∷ rows) e n =
    let idle : t.active ≡ 0 = ground (arith, n.0, e.0) in ground (arith, none_open rows e.1 n.1)

-- row `k` holds the open ticket that entered first
abbrev pub IsOldest : List Ticket → ℕ → Type 0
IsOldest rows k =
    (k < length rows)
    × ((get_or rows k blank).active ≢ 0)
    × NoneBefore (get_or rows k blank).entry_sec rows

-- the two ways in which closing a ticket can end
abbrev pub Closes : Ticketing → ℕ → ℕ → ReturnType × Option ℕ × Option ℕ × Ticketing → Type 0
Closes t id sec (status, id', sec', t') =
    ((open_rows t.tickets ≡ 0) × (status ≡ e_nok) × (id' ≡ some id) × (sec' ≡ some sec) × (t' ≡ t))
    ⊎ ((k : ℕ) × IsOldest t.tickets k
        × (status ≡ e_ok)
        × (id' ≡ some (get_or t.tickets k blank).id)
        × (sec' ≡ some (get_or t.tickets k blank).entry_sec)
        × (t'.tickets ≡ set t.tickets k (record (get_or t.tickets k blank) { active = 0 }))
        × (t'.next_id ≡ t.next_id)
        × (t'.total_entries ≡ t.total_entries)
        × (open_rows t'.tickets + 1 ≡ open_rows t.tickets))

-- With both pointers given and every entry time below the sentinel, `TKT_CloseOldest` fails and
-- changes nothing if no ticket is open. Else it reports the number and the entry time of an open
-- ticket that no open ticket precedes, marks that one row free, leaves the rest of the module's
-- state as it was, and one ticket fewer is open.
pub close_oldest_lem :
    (t : Ticketing) (id sec : ℕ)
    → length t.tickets ≡ 6
    → AllEarlier t.tickets
    → Closes t id sec (close_oldest t (some id) (some sec))
unfolding close_oldest oldest_row
close_oldest_lem t id sec size early = elim (oldest_row_from_lem t.tickets 0 6 0xFFFFFFFF) [
  | kept e n ↦
      (let nothing : leb 6 (oldest_row_from t.tickets 0 6 0xFFFFFFFF) ≡ true = ground arith in
        rw nothing (inl (none_open t.tickets early n, refl, refl, refl, refl)))
  | moved k e h a lt n ↦
      (let at_k : oldest_row_from t.tickets 0 6 0xFFFFFFFF ≡ k = omega arith in
        let found : leb 6 k ≡ false = ground arith in
        let closed = record (get_or t.tickets k blank) { active = 0 } in
        rw (at_k, found)
          (inr (
            k,
            (h, a, n),
            refl,
            refl,
            refl,
            refl,
            refl,
            refl,
            open_rows-empty t.tickets k closed h a refl,
          )))
]
