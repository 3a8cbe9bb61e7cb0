-- ===== src/Tests/Drivers.antt =====
-- The theorems on the ring, the checksum, the pins, the barriers and the debounce.
use smart_parking_system_nti.Prelude.{
  ℕ, ◌+◌, ◌*◌, ◌≤◌, ◌<◌, ◌≡◌, ◌≢◌, refl, arith, [], ◌∷◌, some, e_ok, e_nok,
}
use smart_parking_system_nti.RingBuffer
use smart_parking_system_nti.RingBuffer.{push_byte, pop_byte, query_size, step}
use smart_parking_system_nti.RingBuffer.Refine.{run, fifo_run, init-run_refines}
use smart_parking_system_nti.Slots
use smart_parking_system_nti.Slots.Debounce.{after as slots_after, five_samples_publish}
use smart_parking_system_nti.Buzzer.{beep}
use smart_parking_system_nti.Buzzer.Beep.{Beeps, IsSilent, updates, beep_lem}
use smart_parking_system_nti.Board.Adc.Registers.{
  Converter, finish, start_conversion, get_result, set_interrupt,
}
use smart_parking_system_nti.Board.Adc.Conversion.{IsDelivered, conversion_lem}
use smart_parking_system_nti.Tests.Fixtures.{storage, ring, board, quiet}

init-run_refines_example :
    run (push_byte 7 ∷ pop_byte ∷ pop_byte ∷ []) (some ring)
    ≡ fifo_run 3 (push_byte 7 ∷ pop_byte ∷ pop_byte ∷ []) []
unfolding RingBuffer.init
init-run_refines_example =
    init-run_refines (some ring) storage 3 (push_byte 7 ∷ pop_byte ∷ pop_byte ∷ []) (omega arith)
      (omega arith) refl

moved_now :
    Slots.get_map (slots_after (9 ∷ 9 ∷ 9 ∷ 9 ∷ 9 ∷ []))
    ≢ Slots.get_map (slots_after (9 ∷ 9 ∷ 9 ∷ 9 ∷ []))
unfolding slots_after Slots.get_map Slots.sample Slots.boot
moved_now e = absurd (omega arith)

five_samples_publish_example : Slots.get_map (slots_after (9 ∷ 9 ∷ 9 ∷ 9 ∷ 9 ∷ 2 ∷ 2 ∷ [])) ≡ 9
five_samples_publish_example = five_samples_publish (2 ∷ 2 ∷ []) 9

beep_example :
    let (r, z, b) = beep quiet board 7 3 100 in
    (r ≡ e_ok)
    × ((phase j : ℕ) → phase < 6 → j < 10 → Beeps 3 10 phase j (updates (phase * 10 + j) (z, b)))
    × ((k : ℕ) → 60 ≤ k → IsSilent (updates k (z, b)))
beep_example =
    beep_lem quiet board 3 100 refl refl (omega arith) (omega arith) (omega arith) (omega arith)
      refl

abbrev converter : Converter
converter = record { admux = 0x40; adcsra = 0x96; adcl = 0; adch = 0 }

conversion_example :
    let (r, c1) = start_conversion converter 2 in
    (r ≡ e_ok)
    × ((other : ℕ) → (start_conversion c1 other).0 ≡ e_nok)
    × (get_result c1 (some 7) ≡ (e_nok, some 7, c1))
    × IsDelivered 650 (get_result (finish (λ channel. 650) c1) (some 7))
    × ((get_result (set_interrupt (finish (λ channel. 650) c1) 1).1 (some 7)).0 ≡ e_nok)
conversion_example =
    conversion_lem (λ channel. 650) converter 2 7 (omega arith) (omega arith) (omega arith)
      (omega arith) refl
