-- ===== src/RingBuffer/Bounds.antt =====
-- The representation invariant of a ring: its indices stay inside the storage, and `head` is
-- `count` places after `tail`.
use smart_parking_system_nti.Prelude.{
  ℕ, ◌+◌, ◌-◌, ◌≤◌, ◌<◌, ◌≡◌, Option, none, some, List, arith, if◌then◌else◌, ltb, length,
  length-set, e_ok,
}
use smart_parking_system_nti.RingBuffer.{RingBuffer, init, push_atomic, pop_atomic}

-- the index `n` places after `i`, for `n` up to the capacity
abbrev pub offset : ℕ → ℕ → ℕ → ℕ
offset capacity i n = if ltb (i + n) capacity then i + n else i + n - capacity

pub record IsValid (r : RingBuffer) : Type 0 where
  pub storage : r.capacity ≤ length r.buffer
  pub width : r.capacity < 65536
  pub tail_in : r.tail < r.capacity
  pub count_in : r.count ≤ r.capacity
  pub head_at : r.head ≡ offset r.capacity r.tail r.count

pub head_in : {r : RingBuffer} → IsValid r → r.head < r.capacity
head_in v = ground arith

-- An accepted initialisation over storage of the stated size is valid and empty.
pub init-IsValid :
    (old : Option RingBuffer) (array : List ℕ) (capacity : ℕ) {r : RingBuffer}
    → capacity < 65536
    → capacity ≤ length array
    → init old (some array) capacity ≡ (e_ok, some r)
    → IsValid r × (r.count ≡ 0)
unfolding init
init-IsValid none array capacity w s h = ground arith
init-IsValid (some old) array capacity w s h = ground arith

pub push_atomic-IsValid : (r : RingBuffer) (x : ℕ) → IsValid r → IsValid (push_atomic r x).1
unfolding push_atomic
push_atomic-IsValid r x v = ground (arith, length-set r.buffer r.head x)

pub pop_atomic-IsValid : (r : RingBuffer) → IsValid r → IsValid (pop_atomic r).2
unfolding pop_atomic
pop_atomic-IsValid r v = ground arith
