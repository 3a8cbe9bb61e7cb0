-- ===== src/Lane/Calls.antt =====
-- What the calls of the lane logic leave alone: only the barriers move the servos.
use smart_parking_system_nti.Prelude.{
  ℕ, ◌<◌, ◌≡◌, refl, if◌then◌else◌, ◌==◌, ◌!=◌, ◌||◌, ◌%◌, ap, choose, Option, some, none,
  ReturnType, e_ok, e_nok, Bool-cases, inl, inr, leb,
}
use smart_parking_system_nti.Config.{servo_open_us, servo_closed_us, buz_pin}
use smart_parking_system_nti.SoftRtc.{SoftRtc}
use smart_parking_system_nti.Slots.{Slots}
use smart_parking_system_nti.Lot.{Lot}
use smart_parking_system_nti.Board.{Board, Timer1, undisturbed}
use smart_parking_system_nti.RingBuffer.{RingBuffer}
use smart_parking_system_nti.Ticketing.{
  Ticketing, print_entry_frame, on_entry_authorized, find_free_row, close_oldest,
}
use smart_parking_system_nti.Billing.{Billing, settle, on_exit_authorized, print_receipt}
use smart_parking_system_nti.Barrier.Position.{pulse, move_barrier_lem}
use smart_parking_system_nti.Buzzer.{Buzzer, turn_on, turn_off, beep}
use smart_parking_system_nti.Site.{Site}
use smart_parking_system_nti.Lane.{
  bar_open, bar_close, buz_on, buz_off, buz_beep, tkt_on_entry, bil_on_exit,
}

undisturbed-on_entry :
    (t : Ticketing) (rtc : SoftRtc) (slots : Slots) (lot : Lot) (b : Board)
    → undisturbed (on_entry_authorized t rtc slots lot b).1 ≡ undisturbed b
unfolding on_entry_authorized print_entry_frame
undisturbed-on_entry t rtc slots lot b = elim (Bool-cases (leb 6 (find_free_row t))) [
  | inl full ↦ rw full
  | inr room ↦ rw room
]

undisturbed-settle :
    (l : Billing) (rtc : SoftRtc) (b : Board) (r : ReturnType × Option ℕ × Option ℕ × Ticketing)
    → undisturbed (settle l rtc b r).2 ≡ undisturbed b
unfolding settle print_receipt
undisturbed-settle l rtc b (e_nok, id, entry, t) = refl
undisturbed-settle l rtc b (e_ok, none, entry, t) = refl
undisturbed-settle l rtc b (e_ok, some id, none, t) = refl
undisturbed-settle l rtc b (e_ok, some id, some entry, t) = refl

undisturbed-turn_on : (b : Board) (pin : ℕ) → undisturbed (turn_on b pin).1 ≡ undisturbed b
unfolding turn_on
undisturbed-turn_on b pin =
    choose (λ (r : ReturnType × Board). undisturbed r.1 ≡ undisturbed b) (pin != 7) refl refl

pub pulse-undisturbed :
    (b' b : Board) → undisturbed b' ≡ undisturbed b → (c : ℕ) → pulse b' c ≡ pulse b c
unfolding pulse
pulse-undisturbed b' b e c =
    ap (λ (r : Timer1 × RingBuffer). if c == 0 then r.0.ocr1a else r.0.ocr1b) e

module _ (w : Site) where
  pub undisturbed-tkt : undisturbed (tkt_on_entry w).board ≡ undisturbed w.board
  unfolding tkt_on_entry
  undisturbed-tkt = undisturbed-on_entry w.tickets w.rtc w.slots w.lot w.board

  pub undisturbed-bil : undisturbed (bil_on_exit w).board ≡ undisturbed w.board
  unfolding bil_on_exit on_exit_authorized
  undisturbed-bil =
      undisturbed-settle w.billing w.rtc w.board (close_oldest w.tickets (some 0) (some 0))

  pub undisturbed-buz_on : undisturbed (buz_on w).board ≡ undisturbed w.board
  unfolding buz_on turn_on
  undisturbed-buz_on = refl

  pub undisturbed-buz_off : undisturbed (buz_off w).board ≡ undisturbed w.board
  unfolding buz_off turn_off
  undisturbed-buz_off = refl

  pub undisturbed-buz_beep :
      (times ms : ℕ) → undisturbed (buz_beep w times ms).board ≡ undisturbed w.board
  unfolding buz_beep beep
  undisturbed-buz_beep times ms =
      let z = w.buzzer in
      let Q : ReturnType × Buzzer × Board → Type 0 = λ r. undisturbed r.2 ≡ undisturbed w.board in
      choose Q (z.active == 1) refl (
        choose Q (times == 0 || ms == 0) refl (
          choose Q (buz_pin != z.pin) refl
            (choose Q (ms % 10 != 0) refl (undisturbed-turn_on w.board z.pin))))

  -- the pulse width of a channel is read off Timer1
  pub pulse-tkt : (c : ℕ) → pulse (tkt_on_entry w).board c ≡ pulse w.board c
  pulse-tkt = pulse-undisturbed (tkt_on_entry w).board w.board undisturbed-tkt

  pub pulse-bil : (c : ℕ) → pulse (bil_on_exit w).board c ≡ pulse w.board c
  pulse-bil = pulse-undisturbed (bil_on_exit w).board w.board undisturbed-bil

  pub pulse-buz_on : (c : ℕ) → pulse (buz_on w).board c ≡ pulse w.board c
  pulse-buz_on = pulse-undisturbed (buz_on w).board w.board undisturbed-buz_on

  pub pulse-buz_off : (c : ℕ) → pulse (buz_off w).board c ≡ pulse w.board c
  pulse-buz_off = pulse-undisturbed (buz_off w).board w.board undisturbed-buz_off

  pub pulse-buz_beep : (times ms c : ℕ) → pulse (buz_beep w times ms).board c ≡ pulse w.board c
  pulse-buz_beep times ms =
      pulse-undisturbed (buz_beep w times ms).board w.board (undisturbed-buz_beep times ms)

  pub pulse-bar_open :
      (c other : ℕ)
      → c < 2
      → other < 2
      → pulse (bar_open w c).board other
        ≡ (if other == c then servo_open_us else pulse w.board other)
  unfolding bar_open
  pulse-bar_open c other hc ho = (move_barrier_lem w.board c other hc ho).1

  pub pulse-bar_close :
      (c other : ℕ)
      → c < 2
      → other < 2
      → pulse (bar_close w c).board other
        ≡ (if other == c then servo_closed_us else pulse w.board other)
  unfolding bar_close
  pulse-bar_close c other hc ho = (move_barrier_lem w.board c other hc ho).3
