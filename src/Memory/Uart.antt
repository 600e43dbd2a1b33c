-- ===== src/Memory/Uart.antt =====
-- core/Memory.cpp: the serial port at 0x10000000 and the keyboard that feeds it. The input
-- character is an int, held as its 32-bit pattern; -1, no character, is 0xffffffff.
use riscv_sym.Base.{
  ℕ, ◌+◌, bit_and, ◌==◌, ltb, if◌then◌else◌, Bool, true, false, Option, none, some, ◌∷◌, ne_zero,
  not, ◌&&◌, ◌||◌,
}
use riscv_sym.State.{Memory, update}

abbrev pub no_char : ℕ
no_char = 0xffff_ffff

-- A char, which is signed, as an int.
abbrev pub char_to_int : ℕ → ℕ
char_to_int c = if ltb c 128 then c else c + 0xffff_ff00

abbrev pub has_char : Memory → Bool
has_char m = not (m.uart_input_char == no_char)

unfoldable pub is_uart_irq_pending : Memory → Bool
is_uart_irq_pending m =
    let rx_pending = has_char m && ne_zero (bit_and (m.uart_regs 1) 1) in
    let tx_pending = m.uart_tx_irq && ne_zero (bit_and (m.uart_regs 1) 2) in
    rx_pending || tx_pending

unfoldable pub force_uart_input : ℕ → Memory → Memory
force_uart_input c m =
    if has_char m then m else record m { uart_input_char = char_to_int c; uart_irq_pending = true }

-- `typed` is the byte that `select` and `read` find on standard input, if any. A carriage return
-- is taken for a line feed.
unfoldable pub poll_keyboard : Option ℕ → Memory → Memory
poll_keyboard typed m = if has_char m then m else elim typed [
  | none ↦ m
  | some c ↦ record m {
    uart_input_char = char_to_int (if c == 13 || c == 10 then 10 else c);
    uart_irq_pending = true;
  }
]

-- A store to the register at `offset`. Writing register 0 prints, unless DLAB is set.
unfoldable pub uart_write : ℕ → ℕ → Memory → Memory
uart_write offset value m =
    let byte = bit_and value 0xff in
    if offset == 0
    then (if bit_and (m.uart_regs 3) 0x80 == 0
        then record m { console = byte ∷ m.console; uart_tx_irq = true }
        else record m { uart_regs = update m.uart_regs 0 byte })
    else if offset == 1
    then record m {
      uart_regs = update m.uart_regs 1 byte;
      uart_tx_irq = if ne_zero (bit_and value 2) then true else m.uart_tx_irq;
    }
    else record m { uart_regs = update m.uart_regs offset byte }

-- Register 2, the identification of the interrupt; reading it drops a transmit interrupt.
unfoldable pub uart_read_iir : Memory → ℕ × Memory
uart_read_iir m =
    if has_char m && ne_zero (bit_and (m.uart_regs 1) 1)
    then (0xc4, m)
    else if m.uart_tx_irq && ne_zero (bit_and (m.uart_regs 1) 2)
    then (0xc2, record m { uart_tx_irq = false })
    else (0xc1, m)

-- Register 0 with DLAB off: the character is taken.
unfoldable pub uart_take_char : Memory → ℕ × Memory
uart_take_char m =
    (if has_char m then m.uart_input_char else 0, record m { uart_input_char = no_char })

unfoldable pub uart_read : ℕ → Memory → ℕ × Memory
unfolding uart_read_iir uart_take_char
uart_read offset m =
    if offset == 0
    then (if ne_zero (bit_and (m.uart_regs 3) 0x80) then (m.uart_regs 0, m) else uart_take_char m)
    else if offset == 1
    then (m.uart_regs 1, m)
    else if offset == 2
    then uart_read_iir m
    else if offset == 3
    then (m.uart_regs 3, m)
    else if offset == 4
    then (m.uart_regs 4, m)
    else if offset == 5
    then (if has_char m then 0x61 else 0x60, m)
    else if offset == 6
    then (0, m)
    else if offset == 7
    then (m.uart_regs 7, m)
    else (0, m)
