-- ===== src/RingBuffer/Refine.antt =====
-- The ring of LIB/ring_buffer.c against a bounded FIFO.
use smart_parking_system_nti.Prelude.{
  ℕ, zero, suc, ◌-◌, ◌≤◌, ◌<◌, ◌≡◌, refl, sym, ap, ap₂, ◌∙◌, Option, none, some, List, [], ◌∷◌,
  ◌++◌, arith, if◌then◌else◌, ltb, ◌==◌, flag, length, get_or, set, get_or-set_self, get_or-set_ne,
  ReturnType, e_ok, e_nok, ◌≢◌,
}
use smart_parking_system_nti.RingBuffer.{
  RingBuffer, init, push_atomic, pop_atomic, Op, push_byte, pop_byte, query_empty, query_full,
  query_size, clear_all, step,
}
use smart_parking_system_nti.RingBuffer.Bounds.{
  offset, IsValid, init-IsValid, push_atomic-IsValid, pop_atomic-IsValid,
}

-- a FIFO of at most `capacity` bytes, oldest first, and its answer to each call
pub fifo_step : ℕ → Op → List ℕ → (ReturnType × Option ℕ) × List ℕ
fifo_step capacity (push_byte x) q =
    if ltb (length q) capacity then ((e_ok, none), q ++ (x ∷ [])) else ((e_nok, none), q)
fifo_step capacity pop_byte [] = ((e_nok, some 0), [])
fifo_step capacity pop_byte (x ∷ q) = ((e_ok, some x), q)
fifo_step capacity query_empty q = ((e_ok, some (flag (length q == 0))), q)
fifo_step capacity query_full q = ((e_ok, some (flag (length q == capacity))), q)
fifo_step capacity query_size q = ((e_ok, some (length q)), q)
fifo_step capacity clear_all q = ((e_ok, none), [])

module _ (buffer : List ℕ) (capacity : ℕ) where
  -- the `n` bytes from index `i` on, going round at the capacity
  abbrev pub window : ℕ → ℕ → List ℕ
  window i zero = []
  window i (suc n) = get_or buffer i 0 ∷ window (offset capacity i 1) n

  length-window : (i n : ℕ) → length (window i n) ≡ n
  length-window i zero = refl
  length-window i (suc n) = ap suc (length-window (offset capacity i 1) n)

  window_of_pos :
      (i n : ℕ) → n ≢ 0 → window i n ≡ get_or buffer i 0 ∷ window (offset capacity i 1) (n - 1)
  window_of_pos i zero h = absurd (h refl)
  window_of_pos i (suc n) h = ap (λ k. window i (suc k)) (omega arith)

-- the bytes held, oldest first
abbrev pub contents : RingBuffer → List ℕ
contents r = window r.buffer r.capacity r.tail r.count

offset-ne : (c i n : ℕ) → i < c → suc n < c → offset c i (suc n) ≢ i
offset-ne c i n hi hn = ground arith

offset-suc : (c i n : ℕ) → i < c → suc n ≤ c → offset c (offset c i 1) n ≡ offset c i (suc n)
offset-suc c i n hi hn = ground arith

offset_in : (c i : ℕ) → i < c → offset c i 1 < c
offset_in c i h = ground arith

-- A byte written just past a window extends the window by that byte.
window-set :
    (b : List ℕ) (c x n i j : ℕ)
    → c ≤ length b
    → i < c
    → n < c
    → j ≡ offset c i n
    → window (set b j x) c i (suc n) ≡ window b c i n ++ (x ∷ [])
window-set b c x zero i j hb hi hn e =
    let here : j ≡ i = ground arith in
    rw here (ap (λ y. y ∷ []) (get_or-set_self b i x 0 (omega arith)))
window-set b c x (suc n) i j hb hi hn e =
    ap₂ ◌∷◌ (get_or-set_ne b x 0 (rw e (offset-ne c i n hi hn))) (
      window-set b c x n (offset c i 1) j hb (offset_in c i hi) (omega arith)
        (e ∙ sym (offset-suc c i n hi (omega arith))))

push_refines :
    (r : RingBuffer) (x : ℕ)
    → IsValid r
    → let (s, r') = push_atomic r x in
      ((s, none), contents r') ≡ fifo_step r.capacity (push_byte x) (contents r)
unfolding push_atomic fifo_step
push_refines r x v = ground (
  arith,
  length-window r.buffer r.capacity r.tail r.count,
  window-set r.buffer r.capacity x r.count r.tail r.head,
)

pop_refines :
    (r : RingBuffer)
    → IsValid r
    → let (s, out, r') = pop_atomic r in
      ((s, elim out [ none ↦ some 0 | some b ↦ some b ]), contents r')
      ≡ fifo_step r.capacity pop_byte (contents r)
unfolding pop_atomic fifo_step
pop_refines r v = ground (arith, window_of_pos r.buffer r.capacity r.tail r.count)

-- the ring after a call
pub after : Op → RingBuffer → RingBuffer
after (push_byte x) r = (push_atomic r x).1
after pop_byte r = (pop_atomic r).2
after clear_all r = record r { head = 0; tail = 0; count = 0 }
after _ r = r

after-IsValid : (op : Op) (r : RingBuffer) → IsValid r → IsValid (after op r)
unfolding after
after-IsValid (push_byte x) r v = push_atomic-IsValid r x v
after-IsValid pop_byte r v = pop_atomic-IsValid r v
after-IsValid clear_all r v = ground arith
after-IsValid query_empty r v = v
after-IsValid query_full r v = v
after-IsValid query_size r v = v

capacity-after : (op : Op) (r : RingBuffer) → (after op r).capacity ≡ r.capacity
unfolding after push_atomic pop_atomic
capacity-after (push_byte x) r = ground arith
capacity-after pop_byte r = ground arith
capacity-after _ r = refl

-- A call on a valid ring returns what the FIFO of its contents returns, and leaves a ring that
-- holds what the FIFO then holds.
pub step_refines :
    (op : Op) (r : RingBuffer)
    → IsValid r
    → let (reply, q) = fifo_step r.capacity op (contents r) in
      (step op (some r) ≡ (reply, some (after op r))) × (contents (after op r) ≡ q)
unfolding step after fifo_step
step_refines (push_byte x) r v = (
  ap (λ t. (t.0, some (push_atomic r x).1)) (push_refines r x v),
  ap (λ t. t.1) (push_refines r x v),
)
step_refines pop_byte r v =
    (ap (λ t. (t.0, some (pop_atomic r).2)) (pop_refines r v), ap (λ t. t.1) (pop_refines r v))
step_refines query_empty r v = ground (arith, length-window r.buffer r.capacity r.tail r.count)
step_refines query_full r v = ground (arith, length-window r.buffer r.capacity r.tail r.count)
step_refines query_size r v = ground (arith, length-window r.buffer r.capacity r.tail r.count)
step_refines clear_all r v = (refl, refl)

-- what a sequence of calls returns
pub run : List Op → Option RingBuffer → List (ReturnType × Option ℕ)
run [] r = []
run (op ∷ ops) r = let (reply, r') = step op r in reply ∷ run ops r'

pub fifo_run : ℕ → List Op → List ℕ → List (ReturnType × Option ℕ)
fifo_run capacity [] q = []
fifo_run capacity (op ∷ ops) q =
    let (reply, q') = fifo_step capacity op q in reply ∷ fifo_run capacity ops q'

run-eq-fifo_run :
    (ops : List Op) (r : RingBuffer)
    → IsValid r
    → run ops (some r) ≡ fifo_run r.capacity ops (contents r)
unfolding run fifo_run
run-eq-fifo_run [] r v = refl
run-eq-fifo_run (op ∷ ops) r v =
    let (now, holds) = step_refines op r v in
    let ih = run-eq-fifo_run ops (after op r) (after-IsValid op r v) in
    let reply = (fifo_step r.capacity op (contents r)).0 in
    ap (λ t. t.0 ∷ run ops t.1) now
    ∙ ap (λ rest. reply ∷ rest) ih
    ∙ ap (λ k. reply ∷ fifo_run k ops (contents (after op r))) (capacity-after op r)
    ∙ ap (λ q. reply ∷ fifo_run r.capacity ops q) holds

init_capacity :
    (old : Option RingBuffer) (array : List ℕ) (capacity : ℕ) {r : RingBuffer}
    → init old (some array) capacity ≡ (e_ok, some r)
    → r.capacity ≡ capacity
unfolding init
init_capacity none array capacity h = ground arith
init_capacity (some old) array capacity h = ground arith

contents_of_empty : (r : RingBuffer) → r.count ≡ 0 → contents r ≡ []
contents_of_empty r e = ap (λ n. window r.buffer r.capacity r.tail n) e

-- From an accepted initialisation over storage of the stated size, no sequence of calls tells
-- the ring from an empty FIFO of that capacity.
pub init-run_refines :
    (old : Option RingBuffer) (array : List ℕ) (capacity : ℕ) {r : RingBuffer} (ops : List Op)
    → capacity < 65536
    → capacity ≤ length array
    → init old (some array) capacity ≡ (e_ok, some r)
    → run ops (some r) ≡ fifo_run capacity ops []
init-run_refines old array capacity {r} ops w s h =
    let (v, empty) = init-IsValid old array capacity w s h in
    let same = init_capacity old array capacity h in
    run-eq-fifo_run ops r v ∙ ap₂ (λ c q. fifo_run c ops q) same (contents_of_empty r empty)
