-- ===== src/Board.antt =====
-- The registers of the ATmega32 that the drivers write, and what the circuit feeds in. Busy waits
-- on a hardware flag (UDRE, SPIF, ADIF) are taken to end: the flag is the hardware's to set.
pub mod Pwm
pub mod Tone
pub mod Usart
pub mod Adc
pub mod Spi
pub mod I2c
pub mod Timer0
pub mod Exti
use smart_parking_system_nti.Prelude.{ℕ, Option, List}
use smart_parking_system_nti.Dio.{Dio}
use smart_parking_system_nti.RingBuffer.{RingBuffer}

-- Timer1: ICR1, OCR1A (entry servo) and OCR1B (exit servo) as 16-bit words
pub record Timer1 : Type 0 where
  pub tccr1a : ℕ
  pub tccr1b : ℕ
  pub icr1 : ℕ
  pub ocr1a : ℕ
  pub ocr1b : ℕ

-- Timer2, which makes the tone
pub record Timer2 : Type 0 where
  pub tccr2 : ℕ
  pub tcnt2 : ℕ
  pub ocr2 : ℕ

-- SPI: the two registers that are written, the bytes shifted out so far, oldest first, what a
-- transfer reads back, and the bytes that had been shifted out when the strobe of the registers behind
-- the port was last high: while it is, their outputs follow what was shifted in
pub record SpiPort : Type 0 where
  pub spcr : ℕ
  pub spsr : ℕ
  pub shifted : List ℕ
  pub answer : ℕ
  pub latched : List ℕ

-- Timer0, which makes the 10 ms tick; a callback is the number of a function, none where it is NULL
pub record TickTimer : Type 0 where
  pub tccr0 : ℕ
  pub tcnt0 : ℕ
  pub ocr0 : ℕ
  pub timsk : ℕ
  pub tifr : ℕ
  pub callback : Option ℕ

-- the external interrupts, with their three callbacks
pub record Interrupts : Type 0 where
  pub mcucr : ℕ
  pub mcucsr : ℕ
  pub gicr : ℕ
  pub gifr : ℕ
  pub callbacks : List (Option ℕ)

-- USART: the registers that set it up
pub record Uart : Type 0 where
  pub ucsra : ℕ
  pub ucsrb : ℕ
  pub ucsrc : ℕ
  pub ubrrh : ℕ
  pub ubrrl : ℕ

-- the two lines of the display's bus: their levels (SCL, SDA) after each change that the firmware
-- made, newest first, and what the readings of SDA to come will show
pub record Wires : Type 0 where
  pub levels : List (ℕ × ℕ)
  pub answers : List ℕ

pub record Board : Type 0 where
  pub dio : Dio
  pub timer1 : Timer1
  pub timer2 : Timer2
  -- what a conversion of each analogue channel gives
  pub analog : ℕ → ℕ
  -- the bytes written to the transmit register so far, oldest first
  pub sent : List ℕ
  -- the receive queue that the RXC interrupt fills
  pub rx : RingBuffer
  pub spi : SpiPort
  pub wires : Wires
  pub timer0 : TickTimer
  pub exti : Interrupts
  pub uart : Uart

-- what only the barriers change, and what only the receiver and its reader change
abbrev pub undisturbed : Board → Timer1 × RingBuffer
undisturbed b = (b.timer1, b.rx)
