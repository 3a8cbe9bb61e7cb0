-- ===== src/Telemetry/Frame.antt =====
-- The layout, the length and the checksum of a status frame (APP/telemetry/telemetry.c).
use mathlib.Core.List.{append_assoc, append-nil}
use smart_parking_system_nti.Prelude.{
  ℕ, ◌+◌, ◌-◌, ◌/◌, ◌%◌, ◌^◌, ◌≤◌, ◌<◌, ◌≡◌, sym, ap, ◌∙◌, List, [], ◌∷◌, ◌++◌, length,
  length-append, arith, some, e_ok, u8,
}
use smart_parking_system_nti.Text.{codes, decimal}
use smart_parking_system_nti.Text.Decimal.{length-decimal_of_lt}
use smart_parking_system_nti.Ticketing.{crlf}
use smart_parking_system_nti.Checksum.{xor_checksum}
use smart_parking_system_nti.SoftRtc
use smart_parking_system_nti.Slots
use smart_parking_system_nti.Lot.{LotState, initial, operational, full, maintenance, fault}
use smart_parking_system_nti.Site.{Site}
use smart_parking_system_nti.Lane.{
  LaneState, Lane, idle, vehicle_wait, authorising, gate_opening, gate_open, vehicle_passing,
  gate_closing, rejected, timeout,
}
use smart_parking_system_nti.Telemetry.{
  lane_state_name, mode_name, append_str, append_uint, hex_digit, append_hex_byte, append_fields,
  finish, build_frame,
}

-- an operation that adds `text`, of at most `most` bytes, to every frame with that much room left
record Writes (op : List ℕ → List ℕ) (text : List ℕ) (most : ℕ) : Type 0 where
  adds : (frame : List ℕ) → length frame + most ≤ 111 → op frame ≡ frame ++ text
  size : length text ≤ most

append_str-fits :
    (text frame : List ℕ) → length frame + length text ≤ 111 → append_str frame text ≡ frame ++ text
unfolding append_str
append_str-fits [] frame h = sym (append-nil frame)
append_str-fits (c ∷ text) frame h =
    let grown : length (frame ++ (c ∷ [])) ≡ length frame + 1 = length-append frame (c ∷ []) in
    let rest = append_str-fits text (frame ++ (c ∷ [])) (omega (arith, h, grown)) in
    let joined = append_assoc frame (c ∷ []) text in ground (arith, rest ∙ joined)

Writes-text :
    (text : List ℕ) (most : ℕ) → length text ≤ most → Writes (λ f. append_str f text) text most
Writes-text text most h = record {
  adds = λ frame room. append_str-fits text frame (omega (arith, h, room));
  size = h;
}

Writes-number :
    (value digits : ℕ)
    → 0 < digits
    → value < 10 ^ digits
    → Writes (λ f. append_uint f value) (decimal 10 value) digits
unfolding append_uint
Writes-number value digits pos h =
    Writes-text (decimal 10 value) digits (length-decimal_of_lt 10 digits value pos h)

-- the two hexadecimal digits of a byte
abbrev pub hex_byte : ℕ → List ℕ
hex_byte v = hex_digit (v / 16 % 16) ∷ hex_digit (v % 16) ∷ []

Writes-hex : (value : ℕ) → Writes (λ f. append_hex_byte f value) (hex_byte value) 2
unfolding append_hex_byte
Writes-hex value = record { adds = λ frame room. ground arith; size = omega arith }

infixr 5 ◌then◌
◌then◌ :
    {f g : List ℕ → List ℕ} {s t : List ℕ} {m n : ℕ}
    → Writes f s m
    → Writes g t n
    → Writes (λ x. g (f x)) (s ++ t) (m + n)
◌then◌ {f = f} {g = g} {s = s} {t = t} first second = record {
  adds = λ frame room.
      ap g (first.adds frame (omega (arith, room)))
      ∙ second.adds (frame ++ s) (omega (arith, length-append frame s, first.size, room))
      ∙ append_assoc frame s t;
  size = omega (arith, length-append s t, first.size, second.size);
}

lane_state_name-le : (st : LaneState) → length (lane_state_name st) ≤ 7
lane_state_name-le idle = omega arith
lane_state_name-le vehicle_wait = omega arith
lane_state_name-le authorising = omega arith
lane_state_name-le gate_opening = omega arith
lane_state_name-le gate_open = omega arith
lane_state_name-le vehicle_passing = omega arith
lane_state_name-le gate_closing = omega arith
lane_state_name-le rejected = omega arith
lane_state_name-le timeout = omega arith

mode_name-le : (m : LotState) → length (mode_name m) ≤ 5
mode_name-le initial = omega arith
mode_name-le operational = omega arith
mode_name-le full = omega arith
mode_name-le maintenance = omega arith
mode_name-le fault = omega arith

-- the fields of a frame, one after the other
pub fields : Site → Lane → Lane → List ℕ
fields w entry exit =
    decimal 10 w.lot.free_slots
    ++ (codes ",O="
        ++ (decimal 10 w.lot.occupied_slots
            ++ (codes ",MAP="
                ++ (hex_byte w.slots.published_map
                    ++ (codes ",IN="
                        ++ (lane_state_name entry.state
                            ++ (codes ",OUT="
                                ++ (lane_state_name exit.state
                                    ++ (codes ",T="
                                        ++ (decimal 10 w.tickets.total_entries
                                            ++ (codes ",X="
                                                ++ (decimal 10 w.billing.total_exits
                                                    ++ (codes ",REV="
                                                        ++ (decimal 10 w.billing.total_revenue
                                                            ++ (codes ",MODE="
                                                            ++ (mode_name w.lot.state
                                                            ++ (codes ",UP="
                                                            ++ decimal 10
                                                            w.rtc.uptime_sec)))))))))))))))))

-- the widths of the variables that a frame shows
pub record IsPrintable (w : Site) : Type 0 where
  pub free : w.lot.free_slots < 256
  pub occupied : w.lot.occupied_slots < 256
  pub entries : w.tickets.total_entries < 65536
  pub exits : w.billing.total_exits < 65536
  pub revenue : w.billing.total_revenue < 65536
  pub uptime : w.rtc.uptime_sec < 4294967296

Writes-fields :
    (w : Site) (entry exit : Lane)
    → IsPrintable w
    → Writes (λ f. append_fields w entry exit f) (fields w entry exit) 90
unfolding append_fields fields Slots.get_map SoftRtc.seconds
Writes-fields w entry exit v =
    Writes-number w.lot.free_slots 3 (omega arith) (omega (arith, v.free))
    then Writes-text (codes ",O=") 3 (omega arith)
    then Writes-number w.lot.occupied_slots 3 (omega arith) (omega (arith, v.occupied))
    then Writes-text (codes ",MAP=") 5 (omega arith)
    then Writes-hex w.slots.published_map
    then Writes-text (codes ",IN=") 4 (omega arith)
    then Writes-text (lane_state_name entry.state) 7 (lane_state_name-le entry.state)
    then Writes-text (codes ",OUT=") 5 (omega arith)
    then Writes-text (lane_state_name exit.state) 7 (lane_state_name-le exit.state)
    then Writes-text (codes ",T=") 3 (omega arith)
    then Writes-number w.tickets.total_entries 5 (omega arith) (omega (arith, v.entries))
    then Writes-text (codes ",X=") 3 (omega arith)
    then Writes-number w.billing.total_exits 5 (omega arith) (omega (arith, v.exits))
    then Writes-text (codes ",REV=") 5 (omega arith)
    then Writes-number w.billing.total_revenue 5 (omega arith) (omega (arith, v.revenue))
    then Writes-text (codes ",MODE=") 6 (omega arith)
    then Writes-text (mode_name w.lot.state) 5 (mode_name-le w.lot.state)
    then Writes-text (codes ",UP=") 4 (omega arith)
    then Writes-number w.rtc.uptime_sec 10 (omega arith) (omega (arith, v.uptime))

-- the bytes from `*` on, for a checksum
pub trailer : ℕ → List ℕ
trailer sum = codes "*" ++ (hex_byte sum ++ crlf)

finish_lem :
    (fs : List ℕ)
    → length fs ≤ 90
    → finish 6 (codes "$PK,F=" ++ fs)
      ≡ codes "$PK,F=" ++ (fs ++ trailer (xor_checksum (some fs) (length fs)))
unfolding finish trailer
finish_lem fs h =
    let count : u8 (length (codes "$PK,F=" ++ fs) - 6) ≡ length fs = omega (arith, h) in
    let ends =
      Writes-text (codes "*") 1 (omega arith)
      then Writes-hex (xor_checksum (some fs) (length fs))
      then Writes-text crlf 2 (omega arith) in
    rw count (
      ends.adds (codes "$PK,F=" ++ fs) (omega (arith, h))
      ∙ append_assoc (codes "$PK,F=") fs (trailer (xor_checksum (some fs) (length fs))))

-- Given a buffer, TELEM_BuildFrame succeeds and no byte of the frame is dropped: it is the prefix,
-- the fields in order and a trailer with the checksum of just those fields, and with its NUL it fits
-- the buffer, for variables in the range of their types.
pub build_frame_lem :
    (w : Site) (entry exit : Lane) (buf : List ℕ)
    → IsPrintable w
    → let fs = fields w entry exit in
      let frame = codes "$PK,F=" ++ (fs ++ trailer (xor_checksum (some fs) (length fs))) in
      (build_frame w entry exit (some buf) ≡ (e_ok, some frame)) × (length frame + 1 ≤ 112)
unfolding build_frame append_str trailer
build_frame_lem w entry exit buf v =
    let body = Writes-fields w entry exit v in
    let fs = fields w entry exit in
    let sum = xor_checksum (some fs) (length fs) in
    (
      ap (λ text. (e_ok, some (finish 6 text))) (body.adds (codes "$PK,F=") (omega arith))
          ∙ ap (λ text. (e_ok, some text)) (finish_lem fs body.size),
      omega (arith, body.size, length-append fs (trailer sum)),
    )
