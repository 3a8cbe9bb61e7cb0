-- ===== src/Board/Usart.antt =====
-- MCAL/usart/usart.c: transmission byte by byte, and the receive queue between the interrupt and
-- the console task.
use smart_parking_system_nti.Prelude.{
  ℕ, Option, none, some, List, [], ◌∷◌, ◌++◌, ReturnType, e_ok, e_nok,
}
use smart_parking_system_nti.Dio.{clear_bit}
use smart_parking_system_nti.Text.{c_string}
use smart_parking_system_nti.RingBuffer
use smart_parking_system_nti.RingBuffer.{RingBuffer}
use smart_parking_system_nti.Board.{Board}

-- UART_RX_BUFFER_SIZE
abbrev pub rx_size : ℕ
rx_size = 64

-- what USART_Init does once the queue is set up. The array that the queue is given is the static
-- one, which holds what the queue held.
configure : Board → ReturnType × Option RingBuffer → ReturnType × Board
unfolding clear_bit
configure b (e_ok, some ring) = (
  e_ok,
  record b {
    rx = ring;
    uart = record {
      ucsra = clear_bit b.uart.ucsra 1;
      ucsrb = 0x98;
      ucsrc = 0x86;
      ubrrh = 0;
      ubrrl = 51;
    };
  },
)
configure b (e_ok, none) = (e_nok, b)
configure b (e_nok, ring) = (e_nok, b)

unfoldable pub init : Board → ReturnType × Board
unfolding RingBuffer.init configure
init b = configure b (RingBuffer.init (some b.rx) (some b.rx.buffer) rx_size)

unfoldable pub send_byte : Board → ℕ → Board
send_byte b byte = record b { sent = b.sent ++ (byte ∷ []) }

-- USART_SendByte never fails, so the loop runs to the NUL.
unfoldable pub send_string : Board → List ℕ → Board
unfolding c_string
send_string b text = record b { sent = b.sent ++ c_string text }

-- The byte popped, if the queue holds one.
unfoldable pub receive_byte : Board → ReturnType × Option ℕ × Board
unfolding RingBuffer.pop_atomic
receive_byte b = let (s, byte, r) = RingBuffer.pop_atomic b.rx in (s, byte, record b { rx = r })

-- the RXC interrupt: `(void)RingBuffer_Push(...)`
unfoldable pub on_receive : Board → ℕ → Board
unfolding RingBuffer.push_atomic
on_receive b byte = record b { rx = (RingBuffer.push_atomic b.rx byte).1 }
