-- ===== src/Lib.antt =====
-- Smart parking system: the firmware of a six-slot car park on an ATmega32, with an entry and an
-- exit lane. Paths are from the repository's root.
--
-- The program. Every 10 ms the main loop runs the tasks that are due. The slot sensors are
-- debounced into a bitmap (HAL/slots); the lot (APP/lot) counts it and decides whether a vehicle
-- may enter; each lane (APP/lane) is a state machine that moves its barrier (HAL/barrier over
-- MCAL/pwm), sounds the buzzer (HAL/buzzer over MCAL/tone), and on authorisation registers an entry
-- (APP/ticketing) or settles an exit (APP/billing, which closes the oldest ticket and charges the
-- time since its entry, read from LIB/softrtc). Tickets and receipts go out over MCAL/usart. The
-- panel (APP/display) shows the lot on lamps, a digit and two lines of text. main.c owns the tasks,
-- the buttons' effects, maintenance, the console's lines and the start-up.
--
-- The files.
--   Prelude            shared names, Boolean tests, words of 8, 16 and 32 bits, lists as C arrays,
--                      STD_ReturnType (LIB/STD_TYPES.h)
--   Config             APP/config.h and the constants that modules define for themselves
--   Text               C strings and the decimal printing loop
--   SoftRtc            LIB/softrtc.c: RTC_Tick10ms, RTC_Seconds, RTC_Format
--   Checksum           LIB/checksum/checksum.c: XOR_Checksum
--   RingBuffer         LIB/ring_buffer.c, all seven functions
--   Dio                MCAL/dio/dio.c, all six functions
--   Board              the registers, with Board/Pwm (MCAL/pwm), Board/Tone (MCAL/tone), Board/Usart
--                      (MCAL/usart) and Board/Adc (MCAL/ADC)
--   Barrier, Buzzer, Slots    HAL/barrier, HAL/buzzer, HAL/slots
--   Lot                APP/lot/lot_fsm.c: LOT_Run and the mode switches
--   Ticketing, Billing APP/ticketing/ticketing.c and APP/billing/billing.c
--   Site, Lane         the shared state, and APP/lane/lane_fsm.c: LANE_Init, LANE_Run,
--                      LANE_RequestOpen
--   Scheduler          APP/scheduler/scheduler.c: the task table and SCHED_Tick
--   LoopSense, Light   APP/loopsense/loopsense.c and APP/light/light.c
--   Telemetry          APP/telemetry/telemetry.c: the status frame
--   Console            APP/console/console.c: CONSOLE_ParseLine and its handlers, with Console/Words
--                      (words and numbers) and Console/Set (the settings)
--   Buttons            HAL/buttons/buttons.c: the debounced buttons
--   SevenSeg           HAL/7seg/7seg.c: the digit
--   ShiftReg, SlotLeds HAL/shiftreg/shiftreg.c and HAL/slotleds/slotleds.c: the lamps and their chain
--   Lcd                HAL/lcd/lcd_i2c.c over the interface `Bus`: Lcd/Screen is a display at its far
--                      end, Lcd/Walk and Lcd/Paint are about LCD_Paint, Lcd/Keeps about what every
--                      call of LCD_Paint leaves alone
--   Display            APP/display/display_task.c, with MCAL/i2c/i2c.c as the display's bus.
--                      Display/Wire is about the frames on the two lines, Display/Rows,
--                      Display/Shown and Display/Start about the text that the display shows
--   Board/I2c, Board/Spi, Board/Timer0, Board/Exti
--                      MCAL/i2c/i2c.c, whose lines Board/I2c/Receiver listens to by the rules of the
--                      bus, MCAL/spi/spi.c, MCAL/timer/timer.c and MCAL/exti/exti.c
--   Main               main.c: the whole program as one state. Main/Lanes, Main/Tasks and Main/Line
--                      are its tasks, Main/Boot its start, Main/Loop its interrupts and its
--                      super-loop. Main/Barriers, Main/Gates, Main/Quiet, Main/Rounds, Main/Start
--                      and Main/Failed are about the barriers, Main/Sound about the ranges of all
--                      data, Main/Drain, Main/Assemble and Main/Unseen about the console's lines,
--                      Main/Mismatch about the occupancy check, Main/Ticks about the load of a
--                      tick. The loop of Task_Console runs on fuel, the number of bytes in the
--                      receive queue; each round takes one.
--   Tests              concrete installations and the theorems applied to them
-- A child module of one of these holds its theorems.
--
-- State. A module's static variables are a record, a function that changes them returns the new
-- record, and `Site` puts the records together that the lanes share. A pointer argument is an
-- option, `none` for NULL. A function of STD_ReturnType returns its status beside its results.
-- Unsigned arithmetic wraps where it is written (`u8`, `u16`, `u32`); `unsigned int` has 16 bits on
-- the target. The bytes transmitted are kept in the order they are sent.
--
-- Bounds. Loops over the six rows, the six slots and the four ports recurse on the list or the
-- count. The digit loop runs on the size of the array that it fills, 5 or 6 digits for a 16-bit
-- number and 10 for a 32-bit one, which is no less than such a number has.
--
-- Not modelled. Delays, the idle time and the waits on a hardware flag
-- have no state here, and a wait is taken to end. The tasks read a channel of the ADC without its
-- registers, which Board/Adc/Registers has by themselves: a conversion gives what the circuit holds.
-- What a display does with a frame is the interface `Obeys` of Display/Wire, and that it answers every
-- byte is part of `IsReady` there; the theorems on the display take both as hypotheses. The levels of
-- the bus are those that the firmware puts on it.
-- The tick interrupt and the receive interrupt are steps between two passes of the super-loop, and a
-- section under ATOMIC_BLOCK is one step: an interrupt in the middle of a task is not modelled.
pub mod Prelude
pub mod Config
pub mod Text
pub mod SoftRtc
pub mod Checksum
pub mod Dio
pub mod RingBuffer
pub mod Board
pub mod Barrier
pub mod Buzzer
pub mod Buttons
pub mod SevenSeg
pub mod ShiftReg
pub mod SlotLeds
pub mod Lcd
pub mod Slots
pub mod Lot
pub mod Ticketing
pub mod Billing
pub mod Site
pub mod Lane
pub mod LoopSense
pub mod Light
pub mod Telemetry
pub mod Console
pub mod Display
pub mod Scheduler
pub mod Main
mod Tests
