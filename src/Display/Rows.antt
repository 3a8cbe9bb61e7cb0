-- ===== src/Display/Rows.antt =====
-- The texts of the two rows of the display (APP/display/display_task.c), against what a reader sees.
use smart_parking_system_nti.Prelude.{
  ℕ, zero, suc, ◌+◌, ◌≤◌, false, get_or, set, ◌<◌, ◌≡◌, refl, ap, Bool, true, ◌==◌, ◌&&◌, ltb, List,
  [], ◌∷◌, ◌++◌, u8, arith,
}
use smart_parking_system_nti.Text.{codes}
use smart_parking_system_nti.Lcd.{line_image}
use smart_parking_system_nti.Lcd.Screen.{Memory, AreBytes}
use smart_parking_system_nti.Lane.{
  LaneState, idle, vehicle_wait, authorising, gate_opening, gate_open, vehicle_passing,
  gate_closing, rejected, timeout,
}
use smart_parking_system_nti.Display.{lane_name, line1, line2}

all_bytes : List ℕ → Bool
all_bytes [] = true
all_bytes (c ∷ l) = ltb c 256 && all_bytes l

AreBytes-all : (l : List ℕ) → all_bytes l ≡ true → AreBytes l
unfolding all_bytes
AreBytes-all [] h k = omega arith
AreBytes-all (c ∷ l) h zero = ground arith
AreBytes-all (c ∷ l) h (suc k) = AreBytes-all l (ground arith) k

all_bytes-append :
    (l m : List ℕ) → all_bytes l ≡ true → all_bytes m ≡ true → all_bytes (l ++ m) ≡ true
unfolding all_bytes
all_bytes-append [] m hl hm = hm
all_bytes-append (c ∷ l) m hl hm = ground (arith, all_bytes-append l m)

pub line1-AreBytes : (free occupied : ℕ) → AreBytes (line1 free occupied)
unfolding line1 all_bytes
line1-AreBytes free occupied =
    let f : ltb (u8 (b'0' + free)) 256 ≡ true = ground arith in
    let o : ltb (u8 (b'0' + occupied)) 256 ≡ true = ground arith in
    AreBytes-all (line1 free occupied) (rw (f, o) refl)

all_bytes-lane_name : (s : LaneState) → all_bytes (lane_name s) ≡ true
unfolding all_bytes
all_bytes-lane_name idle = refl
all_bytes-lane_name vehicle_wait = refl
all_bytes-lane_name authorising = refl
all_bytes-lane_name gate_opening = refl
all_bytes-lane_name gate_open = refl
all_bytes-lane_name vehicle_passing = refl
all_bytes-lane_name gate_closing = refl
all_bytes-lane_name rejected = refl
all_bytes-lane_name timeout = refl

pub line2-AreBytes : (entry exit : LaneState) → AreBytes (line2 entry exit)
unfolding line2 all_bytes
line2-AreBytes entry exit =
    let front =
      all_bytes-append (lane_name entry) (codes " OUT:") (all_bytes-lane_name entry) refl in
    AreBytes-all (line2 entry exit) (
      all_bytes-append (lane_name entry ++ codes " OUT:") (lane_name exit) front
        (all_bytes-lane_name exit))

-- the sixteen columns from an address on read a text
abbrev pub Reads : ℕ → List ℕ → Memory → Type 0
Reads base text m = (k : ℕ) → k < 16 → m.cells (base + k) ≡ get_or text k 0

-- the first row, with the two counts in their columns
abbrev pub counts_row : ℕ → ℕ → List ℕ
counts_row free occupied = set (set (codes "FREE:?  OCC:?   ") 5 (48 + free)) 12 (48 + occupied)

-- the word for a state of a lane
abbrev pub word_of : LaneState → List ℕ
word_of idle = codes "IDLE"
word_of vehicle_wait = codes "WAIT"
word_of authorising = codes "AUTH"
word_of gate_opening = codes "OPEN"
word_of gate_open = codes "OPEN"
word_of vehicle_passing = codes "PASS"
word_of gate_closing = codes "CLOS"
word_of rejected = codes "REJ "
word_of timeout = codes "TIME"

-- the second row, with the words of the entry and the exit lane in their columns
abbrev pub lanes_row : List ℕ → List ℕ → List ℕ
lanes_row entry exit = codes "IN:" ++ entry ++ codes " OUT:" ++ exit

pub image-line1 :
    (free occupied : ℕ)
    → free ≤ 9
    → occupied ≤ 9
    → line_image (line1 free occupied) 16 ≡ counts_row free occupied
unfolding line1 line_image
image-line1 free occupied f o =
    let free_char : u8 (48 + free) ≡ 48 + free = omega (arith, f) in
    let occupied_char : u8 (48 + occupied) ≡ 48 + occupied = omega (arith, o) in
    let free_seen : (48 + free == 0) ≡ false = ground arith in
    let occupied_seen : (48 + occupied == 0) ≡ false = ground arith in
    rw (free_char, occupied_char, free_seen, occupied_seen) refl

image-lane_name : (s : LaneState) → line_image (lane_name s) 4 ≡ word_of s
unfolding line_image
image-lane_name idle = refl
image-lane_name vehicle_wait = refl
image-lane_name authorising = refl
image-lane_name gate_opening = refl
image-lane_name gate_open = refl
image-lane_name vehicle_passing = refl
image-lane_name gate_closing = refl
image-lane_name rejected = refl
image-lane_name timeout = refl

pub image-line2 :
    (entry exit : LaneState)
    → line_image (line2 entry exit) 16 ≡ lanes_row (word_of entry) (word_of exit)
unfolding line2 line_image
image-line2 idle exit = ap (λ l. codes "IN:IDLE OUT:" ++ l) (image-lane_name exit)
image-line2 vehicle_wait exit = ap (λ l. codes "IN:WAIT OUT:" ++ l) (image-lane_name exit)
image-line2 authorising exit = ap (λ l. codes "IN:AUTH OUT:" ++ l) (image-lane_name exit)
image-line2 gate_opening exit = ap (λ l. codes "IN:OPEN OUT:" ++ l) (image-lane_name exit)
image-line2 gate_open exit = ap (λ l. codes "IN:OPEN OUT:" ++ l) (image-lane_name exit)
image-line2 vehicle_passing exit = ap (λ l. codes "IN:PASS OUT:" ++ l) (image-lane_name exit)
image-line2 gate_closing exit = ap (λ l. codes "IN:CLOS OUT:" ++ l) (image-lane_name exit)
image-line2 rejected exit = ap (λ l. codes "IN:REJ  OUT:" ++ l) (image-lane_name exit)
image-line2 timeout exit = ap (λ l. codes "IN:TIME OUT:" ++ l) (image-lane_name exit)
