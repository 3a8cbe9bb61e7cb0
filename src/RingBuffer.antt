-- ===== src/RingBuffer.antt =====
-- LIB/ring_buffer.c: a byte ring over storage that the caller owns. A `RingBuffer *` is an
-- option, `none` for NULL, and a function that writes through it returns what it then points to.
-- An ATOMIC_BLOCK is one step: nothing interrupts it.
pub mod Bounds
pub mod Refine
use smart_parking_system_nti.Prelude.{
  ℕ, ◌+◌, ◌-◌, Option, none, some, List, if◌then◌else◌, leb, ◌==◌, u16, flag, get_or, set,
  ReturnType, e_ok, e_nok,
}

pub record RingBuffer : Type 0 where
  pub buffer : List ℕ
  pub capacity : ℕ
  pub head : ℕ
  pub tail : ℕ
  pub count : ℕ

-- `i++; if (i >= capacity) i = 0;` on a `uint16`
unfoldable pub next : ℕ → ℕ → ℕ
next capacity i = if leb capacity (u16 (i + 1)) then 0 else u16 (i + 1)

unfoldable pub init : Option RingBuffer → Option (List ℕ) → ℕ → ReturnType × Option RingBuffer
init none array capacity = (e_nok, none)
init (some r) none capacity = (e_nok, some r)
init (some r) (some array) capacity = if capacity == 0 then (e_nok, some r) else (
  e_ok,
  some (record { buffer = array; capacity = capacity; head = 0; tail = 0; count = 0 }),
)

-- A write outside the storage changes nothing here; the invariant rules it out.
unfoldable pub push_atomic : RingBuffer → ℕ → ReturnType × RingBuffer
unfolding next
push_atomic r x = if leb r.capacity r.count then (e_nok, r) else (
  e_ok,
  record r {
    buffer = set r.buffer r.head x;
    head = next r.capacity r.head;
    count = u16 (r.count + 1);
  },
)

unfoldable pub push : Option RingBuffer → ℕ → ReturnType × Option RingBuffer
unfolding push_atomic
push none x = (e_nok, none)
push (some r) x = let (s, r') = push_atomic r x in (s, some r')

-- The option is the byte stored through `Copy_pu8Data`, if one is.
unfoldable pub pop_atomic : RingBuffer → ReturnType × Option ℕ × RingBuffer
unfolding next
pop_atomic r = if r.count == 0 then (e_nok, none, r) else (
  e_ok,
  some (get_or r.buffer r.tail 0),
  record r { tail = next r.capacity r.tail; count = r.count - 1 },
)

-- The second argument is what `Copy_pu8Data` points to, `none` if it is NULL.
unfoldable pub pop : Option RingBuffer → Option ℕ → ReturnType × Option ℕ × Option RingBuffer
unfolding pop_atomic
pop none out = (e_nok, out, none)
pop (some r) none = (e_nok, none, some r)
pop (some r) (some old) =
    let (s, byte, r') = pop_atomic r in
    (s, elim byte [ none ↦ some old | some b ↦ some b ], some r')

-- The queries store their answer through a pointer that is `none` if NULL.
unfoldable pub is_empty : Option RingBuffer → Option ℕ → ReturnType × Option ℕ
is_empty none out = (e_nok, out)
is_empty (some r) none = (e_nok, none)
is_empty (some r) (some old) = (e_ok, some (flag (r.count == 0)))

unfoldable pub is_full : Option RingBuffer → Option ℕ → ReturnType × Option ℕ
is_full none out = (e_nok, out)
is_full (some r) none = (e_nok, none)
is_full (some r) (some old) = (e_ok, some (flag (leb r.capacity r.count)))

unfoldable pub size : Option RingBuffer → Option ℕ → ReturnType × Option ℕ
size none out = (e_nok, out)
size (some r) none = (e_nok, none)
size (some r) (some old) = (e_ok, some r.count)

unfoldable pub clear : Option RingBuffer → ReturnType × Option RingBuffer
clear none = (e_nok, none)
clear (some r) = (e_ok, some (record r { head = 0; tail = 0; count = 0 }))

-- The calls that the firmware makes, in any order: the receive interrupt pushes, the console task
-- pops.
pub data Op : Type 0 where
  push_byte : ℕ → Op
  pop_byte query_empty query_full query_size clear_all : Op

pub step : Op → Option RingBuffer → (ReturnType × Option ℕ) × Option RingBuffer
unfolding push pop is_empty is_full size clear
step (push_byte x) r = let (s, r') = push r x in ((s, none), r')
step pop_byte r = let (s, out, r') = pop r (some 0) in ((s, out), r')
step query_empty r = (is_empty r (some 0), r)
step query_full r = (is_full r (some 0), r)
step query_size r = (size r (some 0), r)
step clear_all r = let (s, r') = clear r in ((s, none), r')
