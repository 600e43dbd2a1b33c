-- ===== src/Range/Devices.antt =====
-- core/Memory.cpp: the devices keep their members in range, and give words.
use riscv_sym.Base.{
  ℕ, ◌+◌, ◌-◌, ◌*◌, ◌^◌, ◌<◌, arith, bit_and, Option, none, some, ◌>>>◌, leb, ltb, ◌==◌,
  if◌then◌else◌, Bool, true, ◌&&◌, ◌||◌, ne_zero, refl, ◌≡◌,
}
use riscv_sym.Base.Bits.Laws.{bit_and-lt, bit_or-lt}
use riscv_sym.State.{Memory, update}
use riscv_sym.Memory.Uart.{
  uart_write, uart_read, uart_read_iir, uart_take_char, poll_keyboard, is_uart_irq_pending,
  has_char, no_char, char_to_int,
}
use riscv_sym.Memory.Mmio.{uart_addr, plic_sclaim_addr, handle_mmio, handle_mmio_read}
use riscv_sym.Range.Defs.{MemoryInRange, either}
use riscv_sym.Range.Members.{mask8-lt, mask32-lt, port-InRange, clock-InRange}
use riscv_sym.Range.Card.{card_step-InRange}

-- A read of a device: a word, and the members in range.
abbrev pub Gives : ℕ × Memory → Type 0
Gives r = (r.0 < 2 ^ 32) × MemoryInRange r.1

-- The same where no device may answer.
abbrev pub Found : Option ℕ × Memory → Type 0
Found (some v, m') = (v < 2 ^ 32) × MemoryInRange m'
Found (none, m') = MemoryInRange m'

module _ (m : Memory) (h : MemoryInRange m) where
  update_regs-lt : (k b i : ℕ) → b < 2 ^ 8 → update m.uart_regs k b i < 2 ^ 8
  update_regs-lt k b i hb = ground (arith, h.uart_regs i)

  port_write-InRange : (offset value : ℕ) → MemoryInRange (uart_write offset value m)
  unfolding uart_write
  port_write-InRange offset value =
      either MemoryInRange (offset == 0) _ _
        (either MemoryInRange (bit_and (m.uart_regs 3) 0x80 == 0) _ _
          (port-InRange m h _ _ _ _ _ h.uart_char h.uart_regs) (stored 0 _))
        (either MemoryInRange (offset == 1) _ _ (stored 1 _) (stored offset _))
    where
      stored :
          (k : ℕ) (tx : Bool)
          → MemoryInRange
              (record m { uart_regs = update m.uart_regs k (bit_and value 0xff); uart_tx_irq = tx })
      stored k tx =
          port-InRange m h _ _ _ _ _ h.uart_char (λ i. update_regs-lt k _ i (mask8-lt value))

  byte_word : {x : ℕ} → x < 2 ^ 8 → x < 2 ^ 32
  byte_word hx = omega arith

  take_char-InRange : Gives (uart_take_char m)
  unfolding uart_take_char
  take_char-InRange = (
    either (λ c. c < 2 ^ 32) (has_char m) _ 0 h.uart_char (omega arith),
    port-InRange m h no_char _ _ _ _ (omega arith) h.uart_regs,
  )

  iir-InRange : Gives (uart_read_iir m)
  unfolding uart_read_iir
  iir-InRange =
      either Gives (has_char m && ne_zero (bit_and (m.uart_regs 1) 1)) _ _ (omega arith, h)
        (either Gives (m.uart_tx_irq && ne_zero (bit_and (m.uart_regs 1) 2)) _ _
          (omega arith, port-InRange m h _ _ _ _ _ h.uart_char h.uart_regs) (omega arith, h))

  port_read-InRange : (offset : ℕ) → Gives (uart_read offset m)
  unfolding uart_read
  port_read-InRange offset =
      either Gives (offset == 0) _ _
        (either Gives (ne_zero (bit_and (m.uart_regs 3) 0x80)) _ _ (register 0) take_char-InRange)
        (either Gives (offset == 1) _ _ (register 1) (
          either Gives (offset == 2) _ _ iir-InRange (
            either Gives (offset == 3) _ _ (register 3) (
              either Gives (offset == 4) _ _ (register 4) (
                either Gives (offset == 5) _ _
                  (either (λ c. c < 2 ^ 32) (has_char m) 0x61 0x60 (omega arith) (omega arith), h)
                  (either Gives (offset == 6) _ _ (omega arith, h)
                    (either Gives (offset == 7) _ _ (register 7) (omega arith, h))))))))
    where
      register : (k : ℕ) → Gives (m.uart_regs k, m)
      register k = (byte_word (h.uart_regs k), h)

  pub device_read-InRange : (address : ℕ) → Found (handle_mmio_read address m)
  unfolding handle_mmio_read
  device_read-InRange address =
      either Found (address == 0x0200_bff8) _ _ (mask32-lt m.mtime, h)
        (either Found (address == 0x0200_bffc) _ _ (mask32-lt (m.mtime >>> 32), h)
          (either Found (address == 0x0200_4000) _ _ (mask32-lt m.mtimecmp, h)
            (either Found (address == 0x0200_4004) _ _ (mask32-lt (m.mtimecmp >>> 32), h)
              (either Found (leb uart_addr address && ltb address (uart_addr + 8)) _ _
                (port_read-InRange (address - uart_addr))
                (either Found (address == 0x1000_0005) _ _
                  (either (λ c. c < 2 ^ 32) (has_char m) 0x21 0x20 (omega arith) (omega arith), h)
                  (either Found (address == uart_addr) _ _
                    (either Found (has_char m) _ _
                      (h.uart_char, port-InRange m h no_char _ _ _ _ (omega arith) h.uart_regs)
                      (omega arith, h))
                    (either Found (address == plic_sclaim_addr) _ _
                      (
                        either (λ c. c < 2 ^ 32) (is_uart_irq_pending m) 12 0 (omega arith)
                            (omega arith),
                        h,
                      )
                      (either Found (address == 0x1000_1004) _ _ (omega arith, h)
                        (either Found (address == 0x1000_1000) _ _ (byte_word h.spi_buffer, h)
                          h)))))))))

  pub device_write-InRange :
      (address value : ℕ) → value < 2 ^ 32 → MemoryInRange (handle_mmio address value m).1
  unfolding handle_mmio
  device_write-InRange address value hv =
      let P : Bool × Memory → Type 0 = λ r. MemoryInRange r.1 in
      either P (address == 0x0200_4000) _ _
        (clock-InRange m h _ _ _ _ h.mtime
          (bit_or-lt 64 _ value (bit_and-lt 64 m.mtimecmp 0xffff_ffff_0000_0000 h.mtimecmp)
            (omega arith))
          h.satp)
        (either P (address == 0x0200_4004) _ _
          (clock-InRange m h _ _ _ _ h.mtime
            (bit_or-lt 64 _ (value * 2 ^ 32) (bit_and-lt 64 m.mtimecmp 0xffff_ffff h.mtimecmp)
              (omega arith))
            h.satp)
          (either P (leb uart_addr address && ltb address (uart_addr + 8)) _ _
            (port_write-InRange (address - uart_addr) value)
            (either P (address == plic_sclaim_addr) _ _ h (
              either P (address == 0x1000_1004) _ _ h (
                either P (address == 0x1000_1000) _ _
                  (card_step-InRange m h (bit_and value 0xff) (mask8-lt value)) h)))))

  pub keyboard-InRange :
      (typed : Option ℕ)
      → ((c : ℕ) → typed ≡ some c → c < 2 ^ 8)
      → MemoryInRange (poll_keyboard typed m)
  unfolding poll_keyboard
  keyboard-InRange typed ht = either MemoryInRange (has_char m) _ _ h (go typed ht)
    where
      go :
          (typed : Option ℕ)
          → ((c : ℕ) → typed ≡ some c → c < 2 ^ 8)
          → MemoryInRange (elim typed [
            | none ↦ m
            | some c ↦ record m {
              uart_input_char = char_to_int (if c == 13 || c == 10 then 10 else c);
              uart_irq_pending = true;
            }
          ])
      go none ht = h
      go (some c) ht =
          let hc = ht c refl in
          port-InRange m h (char_to_int (if c == 13 || c == 10 then 10 else c)) _ _ _ _
            (ground arith) h.uart_regs
