-- ===== src/Tests/Fixtures.antt =====
-- A small installation for the tests: one ticket open, slot 1 occupied, the lot operational.
use smart_parking_system_nti.Prelude.{ℕ, none, List, [], ◌∷◌}
use smart_parking_system_nti.RingBuffer.{RingBuffer}
use smart_parking_system_nti.Dio.{Port, Dio}
use smart_parking_system_nti.Board.{Board}
use smart_parking_system_nti.SoftRtc.{SoftRtc}
use smart_parking_system_nti.Buzzer.{Buzzer}
use smart_parking_system_nti.Slots.{Slots}
use smart_parking_system_nti.Lot.{Lot, operational}
use smart_parking_system_nti.Ticketing.{Ticket, Ticketing, blank}
use smart_parking_system_nti.Billing.{Billing}
use smart_parking_system_nti.Site.{Site}
use smart_parking_system_nti.Lane.{Lane, LaneState}

abbrev pub some_port : Port
some_port = record { ddr = 0; port = 0; pin = 0xFB }

abbrev pub pins : Dio
pins = record { a = some_port; b = some_port; c = some_port; d = some_port }

abbrev pub storage : List ℕ
storage = 0 ∷ 0 ∷ 0 ∷ []

abbrev pub ring : RingBuffer
ring = record { buffer = storage; capacity = 3; head = 0; tail = 0; count = 0 }

abbrev pub board : Board
board = record {
  dio = pins;
  timer1 = record { tccr1a = 0xA2; tccr1b = 0x1A; icr1 = 19999; ocr1a = 1500; ocr1b = 1500 };
  timer2 = record { tccr2 = 8; tcnt2 = 0; ocr2 = 31 };
  analog = λ channel. 650;
  sent = [];
  rx = ring;
  spi = record { spcr = 0; spsr = 0; shifted = []; answer = 0; latched = [] };
  wires = record { levels = []; answers = [] };
  timer0 = record { tccr0 = 0; tcnt0 = 0; ocr0 = 0; timsk = 0; tifr = 0; callback = none };
  exti = record { mcucr = 0; mcucsr = 0; gicr = 0; gifr = 0; callbacks = none ∷ none ∷ none ∷ [] };
  uart = record { ucsra = 0x20; ucsrb = 0; ucsrc = 0x86; ubrrh = 0; ubrrl = 0 };
}

abbrev pub clock : SoftRtc
clock = record { uptime_sec = 7200; sub_tick = 0 }

abbrev pub quiet : Buzzer
quiet = record {
  pin = 7;
  active = 0;
  state = 0;
  beep_count = 0;
  target_beep_count = 0;
  tick_count = 0;
  ticks_per_phase = 0;
  elapsed_ms = 0;
  duration_ms = 0;
}

abbrev pub slots : Slots
slots = record { published_map = 1; candidate = 1; sample_count = 5 }

abbrev pub lot : Lot
lot = record {
  state = operational;
  slot_map = 1;
  free_slots = 5;
  occupied_slots = 1;
  peak_occupancy = 2;
}

abbrev pub ticket : Ticket
ticket = record { id = 41; entry_sec = 100; slot_hint = 1; active = 1 }

abbrev pub table : Ticketing
table = record {
  tickets = blank ∷ ticket ∷ blank ∷ blank ∷ blank ∷ blank ∷ [];
  next_id = 42;
  total_entries = 41;
}

abbrev pub full_table : Ticketing
full_table = record {
  tickets = ticket ∷ ticket ∷ ticket ∷ ticket ∷ ticket ∷ ticket ∷ [];
  next_id = 47;
  total_entries = 46;
}

abbrev pub takings : Billing
takings = record { total_revenue = 65530; total_exits = 40 }

abbrev pub site : Site
site = record {
  board = board;
  rtc = clock;
  buzzer = quiet;
  slots = slots;
  lot = lot;
  tickets = table;
  billing = takings;
}

-- the entry lane (channel 0) in a given state, with a vehicle on the loop or not
abbrev pub entry_lane : LaneState → ℕ → ℕ → Lane
entry_lane state ticks loop = record {
  state = state;
  timer_ticks = ticks;
  loop_active = loop;
  servo_ch = 0;
  is_entry = 1;
  pass_count = 0;
  fault_flag = 0;
}
