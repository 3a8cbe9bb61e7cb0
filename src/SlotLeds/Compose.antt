-- ===== src/SlotLeds/Compose.antt =====
-- The lamp word of a slot map (LED_Compose in HAL/slotleds/slotleds.c).
use smart_parking_system_nti.Prelude.{
  ℕ, ◌+◌, ◌-◌, ◌*◌, ◌/◌, ◌%◌, ◌<◌, ◌≡◌, refl, sym, ap, ◌∙◌, true, ◌==◌, bit, flag, ◌!=◌, all_below,
  agree_below, arith,
}
use smart_parking_system_nti.SlotLeds.{compose}

-- one number for the word's bits of slot `i` and those from bit 12 on
seen : ℕ → ℕ → ℕ → ℕ
seen word i lamps = bit word (i * 2) + 2 * bit word (i * 2 + 1) + 4 * (word / 4096)

wanted : ℕ → ℕ → ℕ → ℕ
wanted map i lamps = bit map i + 2 * (1 - bit map i) + 4 * lamps

abbrev seen_at : ℕ → ℕ
seen_at q = seen (compose (q / 12) (q / 6 % 2)) (q % 6) (q / 6 % 2)

abbrev wanted_at : ℕ → ℕ
wanted_at q = wanted (q / 12) (q % 6) (q / 6 % 2)

seen_table : all_below 3072 (λ q. seen_at q == wanted_at q) ≡ true
unfolding seen wanted all_below compose
seen_table = refl

lamp_flag : (map lamps : ℕ) → compose map lamps ≡ compose map (flag (lamps != 0))
unfolding compose
lamp_flag map lamps = ground arith

seen_lem :
    (map i lamp : ℕ)
    → map < 256
    → i < 6
    → lamp < 2
    → seen (compose map lamp) i lamp ≡ wanted map i lamp
seen_lem map i lamp m h l =
    let q = map * 12 + lamp * 6 + i in
    let map_of : q / 12 ≡ map = omega arith in
    let i_of : q % 6 ≡ i = omega arith in
    let lamp_of : q / 6 % 2 ≡ lamp = omega arith in
    let at_q = agree_below 3072 seen_at wanted_at seen_table q (omega arith) in
    sym (λ k. seen (compose (map_of k) (lamp_of k)) (i_of k) (lamp_of k))
    ∙ at_q
    ∙ (λ k. wanted (map_of k) (i_of k) (lamp_of k))

-- In the lamp word the red lamp of each slot (bit 2i) is lit just if the slot is occupied, its green
-- lamp (bit 2i + 1) just if it is free, the lot lamp (bit 12) just if the lamps are on, and the
-- three spare bits above it are 0.
pub compose_lem :
    (map i lamps : ℕ)
    → map < 256
    → i < 6
    → let word = compose map lamps in
      (bit word (i * 2) ≡ bit map i)
      × (bit word (i * 2 + 1) ≡ 1 - bit map i)
      × (word / 4096 ≡ flag (lamps != 0))
unfolding seen wanted
compose_lem map i lamps m h =
    let lamp = flag (lamps != 0) in
    let small : lamp < 2 = ground arith in
    let known : seen (compose map lamps) i lamp ≡ wanted map i lamp =
      ap (λ w. seen w i lamp) (lamp_flag map lamps) ∙ seen_lem map i lamp m h small in
    omega (arith, known)
