-- ===== src/Main/Drain.antt =====
-- The loop of Task_Console in main.c over the receive queue.
use smart_parking_system_nti.Prelude.{
  ℕ, zero, suc, ◌≤◌, ◌≡◌, refl, sym, ap, ◌∙◌, false, ◌==◌, ◌!=◌, ◌||◌, ltb, choose, none, some,
  length, get_or, arith, ReturnType,
}
use smart_parking_system_nti.Board.{Board}
use smart_parking_system_nti.Board.Usart.{receive_byte, send_string}
use smart_parking_system_nti.RingBuffer.{RingBuffer, pop_atomic}
use smart_parking_system_nti.Console.Keeps.{parse_line-keeps}
use smart_parking_system_nti.Text.{c_string}
use smart_parking_system_nti.Barrier.{open_barrier, close_barrier}
use smart_parking_system_nti.Board.Pwm.{set_pulse}
use smart_parking_system_nti.Main.{System, send}
use smart_parking_system_nti.Main.Line.{
  submit, end_line, accept, consumed, unless_done, drain, task_console,
}

-- the queue of a program
abbrev pub queue : System → RingBuffer
queue y = y.site.board.rx

pub rx-barriers :
    (b : Board) (c : ℕ) → ((open_barrier b c).1.rx ≡ b.rx) × ((close_barrier b c).1.rx ≡ b.rx)
unfolding open_barrier close_barrier set_pulse
rx-barriers b c =
    let Same : ReturnType × Board → Type 0 = λ r. r.1.rx ≡ b.rx in
    (
      choose Same (c == 0) refl (choose Same (c == 1) refl refl),
      choose Same (c == 0) refl (choose Same (c == 1) refl refl),
    )

queue-submit : (y : System) → queue (submit y) ≡ queue y
unfolding submit send_string
queue-submit y =
    parse_line-keeps (λ b. b.rx ≡ queue y) (λ b text p. p) y.settings y.site y.entry y.exit
      (some (c_string y.glue.line)) (λ on c. rx-barriers y.site.board c) refl

queue-end_line : (y : System) → queue (end_line y) ≡ queue y
unfolding end_line send send_string
queue-end_line y =
    let Same : System → Type 0 = λ y'. queue y' ≡ queue y in
    choose Same (y.glue.line_overflow != 0) refl
      (choose Same (ltb 0 (length y.glue.line)) (queue-submit y) refl)

pub queue-accept : (y : System) (byte : ℕ) → queue (accept y byte) ≡ queue y
unfolding accept
queue-accept y byte =
    let Same : System → Type 0 = λ y'. queue y' ≡ queue y in
    choose Same (byte == b'\r' || byte == b'\n') (queue-end_line y)
      (choose Same (ltb (length y.glue.line) 24) refl refl)

-- the program with the oldest byte of its queue taken out
abbrev taken : System → System
taken y =
    let r = queue y in
    record y { site = record (y.site) { board = record (y.site.board) { rx = (pop_atomic r).2 } } }

abbrev oldest : System → ℕ
oldest y = get_or (queue y).buffer (queue y).tail 0

consumed_of_empty :
    (y : System) → (queue y).count ≡ 0 → consumed y (receive_byte y.site.board) ≡ none
unfolding receive_byte pop_atomic consumed
consumed_of_empty y e = rw e refl

consumed_of_held :
    (y : System)
    → ((queue y).count == 0) ≡ false
    → consumed y (receive_byte y.site.board) ≡ some (accept (taken y) (oldest y))
unfolding receive_byte pop_atomic consumed
consumed_of_held y e = rw e refl

count-pop : (r : RingBuffer) {n : ℕ} → r.count ≡ suc n → (pop_atomic r).2.count ≡ n
unfolding pop_atomic
count-pop r e = ground arith

is_held : (m : ℕ) {n : ℕ} → m ≡ suc n → (m == 0) ≡ false
is_held m e = ground arith

count-next :
    (y : System) {n : ℕ} → (queue y).count ≡ suc n → (queue (accept (taken y) (oldest y))).count ≡ n
count-next y e =
    ap (λ (r : RingBuffer). r.count) (queue-accept (taken y) (oldest y)) ∙ count-pop (queue y) e

pub drain_of_empty : (fuel : ℕ) (y : System) → (queue y).count ≡ 0 → drain fuel y ≡ y
unfolding drain unless_done
drain_of_empty zero y e = refl
drain_of_empty (suc fuel) y e = ap (λ r. unless_done y r (drain fuel)) (consumed_of_empty y e)

drain_of_held :
    (fuel : ℕ) (y : System) {n : ℕ}
    → (queue y).count ≡ suc n
    → drain (suc fuel) y ≡ drain fuel (accept (taken y) (oldest y))
unfolding drain unless_done
drain_of_held fuel y e =
    ap (λ r. unless_done y r (drain fuel)) (consumed_of_held y (is_held (queue y).count e))

drains :
    (n fuel : ℕ) (y : System)
    → (queue y).count ≡ n
    → n ≤ fuel
    → (drain fuel y ≡ drain n y) × ((queue (drain fuel y)).count ≡ 0)
drains zero fuel y e h =
    let same = drain_of_empty fuel y e in
    (same ∙ sym (drain_of_empty 0 y e), ap (λ y'. (queue y').count) same ∙ e)
drains (suc n) zero y e h = absurd (omega arith)
drains (suc n) (suc fuel) y e h =
    let (same, empty) =
      drains n fuel (accept (taken y) (oldest y)) (count-next y e) (omega arith) in
    (
      drain_of_held fuel y e ∙ same ∙ sym (drain_of_held n y e),
      ap (λ y'. (queue y').count) (drain_of_held fuel y e) ∙ empty,
    )

-- Task_Console ends with the receive queue empty, and as many rounds as the queue holds bytes are
-- enough: with any larger bound on the rounds the loop ends in the same state.
pub task_console_drains :
    (y : System) (fuel : ℕ)
    → (queue y).count ≤ fuel
    → (drain fuel y ≡ task_console y) × ((queue (task_console y)).count ≡ 0)
unfolding task_console
task_console_drains y fuel h =
    let n = (queue y).count in ((drains n fuel y refl h).0, (drains n n y refl (omega arith)).1)
