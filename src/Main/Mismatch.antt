-- ===== src/Main/Mismatch.antt =====
-- The check of the occupancy against the open tickets, once a second (Task_1Hz in main.c).
use smart_parking_system_nti.Prelude.{
  ℕ, zero, suc, ◌+◌, ◌≤◌, ◌<◌, ◌≡◌, ◌≢◌, refl, ap, ◌∙◌, true, false, ◌!=◌, ◌&&◌, Bool, ltb,
  if◌then◌else◌, arith,
}
use smart_parking_system_nti.Ticketing.{get_open_count}
use smart_parking_system_nti.Main.{System, send, send_uint16}
use smart_parking_system_nti.Main.Tasks.{check_mismatch, mismatch_event}

-- `n` checks, one after the other
unfoldable pub watch : ℕ → System → System
watch zero y = y
watch (suc n) y = check_mismatch (watch n y)

-- the open tickets and the occupied slots
abbrev pub tickets : System → ℕ
tickets y = get_open_count y.site.tickets

abbrev pub occupied : System → ℕ
occupied y = y.site.lot.occupied_slots

-- the program `sec` seconds into a mismatch, before the report and after it
abbrev pub waiting : System → ℕ → System
waiting y sec = record y { glue = record (y.glue) { mismatch_sec = sec; mismatch_logged = 0 } }

abbrev pub reported : System → ℕ → System
reported y sec = record y {
  site = mismatch_event y.site (tickets y) (occupied y);
  glue = record (y.glue) { mismatch_sec = sec; mismatch_logged = 1 };
}

test_of : (t o : ℕ) → t ≢ o → (t != o) ≡ true
test_of t o h = ground arith

below : (a b : ℕ) → a < b → ltb a b ≡ true
below a b h = ground arith

not_below : (a b : ℕ) → b ≤ a → ltb a b ≡ false
not_below a b h = ground arith

and_false : (b : Bool) → (b && false) ≡ false
and_false true = refl
and_false false = refl

equal_of : (t o : ℕ) → t ≡ o → (t != o) ≡ false
equal_of t o h = ground arith

module _ (y : System) (differ : tickets y ≢ occupied y) where
  step_waiting : (sec : ℕ) → sec < 30 → check_mismatch (waiting y sec) ≡ waiting y (sec + 1)
  unfolding check_mismatch
  step_waiting sec h =
      rw
        (
          test_of (tickets y) (occupied y) differ,
          below sec 255 (omega arith),
          not_below 30 (sec + 1) (omega arith),
        )
        refl

  step_report : check_mismatch (waiting y 30) ≡ reported y 31
  unfolding check_mismatch
  step_report = rw (test_of (tickets y) (occupied y) differ) refl

  step_reported :
      (sec : ℕ)
      → check_mismatch (reported y sec) ≡ reported y (if ltb sec 255 then sec + 1 else sec)
  unfolding check_mismatch mismatch_event send send_uint16
  step_reported sec =
      rw
        (
          test_of (tickets y) (occupied y) differ,
          and_false (ltb 30 (if ltb sec 255 then sec + 1 else sec)),
        )
        refl

  watch-waiting : (n : ℕ) → n ≤ 30 → watch n (waiting y 0) ≡ waiting y n
  unfolding watch
  watch-waiting zero h = refl
  watch-waiting (suc n) h =
      ap check_mismatch (watch-waiting n (omega arith))
      ∙ step_waiting n (omega arith)
      ∙ ap (waiting y) (omega arith)

  watch-reported : (n : ℕ) → (sec : ℕ) × (watch (n + 31) (waiting y 0) ≡ reported y sec)
  unfolding watch
  watch-reported zero = (31, ap check_mismatch (watch-waiting 30 (omega arith)) ∙ step_report)
  watch-reported (suc n) =
      let (sec, same) = watch-reported n in
      let next : suc n + 31 ≡ suc (n + 31) = omega arith in
      (
        (if ltb sec 255 then sec + 1 else sec),
        ap (λ k. watch k (waiting y 0)) next ∙ ap check_mismatch same ∙ step_reported sec,
      )

-- While the open tickets and the occupied slots differ, the first thirty checks only count the
-- seconds, the next one sends one report, and no later one sends another. A check that finds them
-- equal sends nothing and starts afresh.
pub check_mismatch_lem :
    (y : System)
    → (tickets y ≢ occupied y
        → ((n : ℕ) → n ≤ 30 → watch n (waiting y 0) ≡ waiting y n)
          × ((n : ℕ)
              → (watch (n + 31) (waiting y 0)).site
                ≡ mismatch_event y.site (tickets y) (occupied y)))
      × (tickets y ≡ occupied y → check_mismatch y ≡ waiting y 0)
unfolding check_mismatch
check_mismatch_lem y = (
  λ differ. (
    watch-waiting y differ,
    λ n. let (sec, same) = watch-reported y differ n in ap (λ y'. y'.site) same,
  ),
  λ same. rw (equal_of (tickets y) (occupied y) same) refl,
)
