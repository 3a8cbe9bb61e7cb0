-- ===== src/Board/I2c/Receiver.antt =====
-- A receiver on the two lines of MCAL/i2c/i2c.c, by the rules of the I2C bus and not by the code:
-- SDA falls while SCL is high at a START and rises at a STOP; SDA is sampled where SCL rises, eight
-- times for a byte, highest bit first, and the ninth clock is the answer's.
use smart_parking_system_nti.Prelude.{
  ℕ, zero, suc, ◌+◌, ◌*◌, ◌≡◌, Bool, true, false, ◌&&◌, if◌then◌else◌, ◌==◌, List, [], ◌∷◌, ◌++◌,
  bit, ◌<◌, arith,
}

pub record Receiver : Type 0 where
  pub scl : ℕ
  pub sda : ℕ
  -- between a START and a STOP
  pub busy : Bool
  -- the bits of the present byte, and how many there are
  pub shift : ℕ
  pub count : ℕ
  -- the bytes of the present frame, oldest first, and the frames before it, newest first
  pub bytes : List ℕ
  pub frames : List (List ℕ)

abbrev pub close : Receiver → Receiver
close r = if r.busy then record r { frames = r.bytes ∷ r.frames } else r

abbrev pub clock : Receiver → ℕ → Receiver
clock r sda =
    if r.count == 8
    then record r { shift = 0; count = 0; bytes = r.bytes ++ (r.shift ∷ []) }
    else record r { shift = r.shift * 2 + sda; count = r.count + 1 }

-- one change of the levels
abbrev pub event : Receiver → ℕ → ℕ → Receiver
event r scl sda =
    if r.scl == 1 && scl == 1
    then (if r.sda == 1 && sda == 0
        then record (close r) { busy = true; shift = 0; count = 0; bytes = [] }
        else if r.sda == 0 && sda == 1
        then record (close r) { busy = false }
        else r)
    else if r.scl == 0 && scl == 1
    then clock r sda
    else r

abbrev pub watch : Receiver → ℕ × ℕ → Receiver
watch r (scl, sda) = record (event r scl sda) { scl = scl; sda = sda }

-- before anything moves, both lines are high
abbrev pub resting : Receiver
resting = record { scl = 1; sda = 1; busy = false; shift = 0; count = 0; bytes = []; frames = [] }

-- what the levels come to, newest first
unfoldable pub heard : List (ℕ × ℕ) → Receiver
heard [] = resting
heard (l ∷ ls) = watch (heard ls) l

-- the receiver in a frame, `count` bits into a byte, while SCL is low
abbrev pub inside : ℕ → ℕ → ℕ → List ℕ → List (List ℕ) → Receiver
inside sda shift count bytes frames = record {
  scl = 0;
  sda = sda;
  busy = true;
  shift = shift;
  count = count;
  bytes = bytes;
  frames = frames;
}

-- the receiver between two frames
abbrev pub outside : ℕ → ℕ → List ℕ → List (List ℕ) → Receiver
outside shift count bytes frames = record {
  scl = 1;
  sda = 1;
  busy = false;
  shift = shift;
  count = count;
  bytes = bytes;
  frames = frames;
}

-- the bits below `left` put behind what was shifted in
unfoldable pub shifted : ℕ → ℕ → ℕ → ℕ
shifted shift byte zero = shift
shifted shift byte (suc left) = shifted (shift * 2 + bit byte left) byte left

-- The eight bits of a byte, from the highest down, make the byte.
pub shifted_byte : (byte : ℕ) → byte < 256 → shifted 0 byte 8 ≡ byte
unfolding shifted
shifted_byte byte h = omega arith
