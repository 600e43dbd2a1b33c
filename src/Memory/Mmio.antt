-- ===== src/Memory/Mmio.antt =====
-- core/Memory.cpp: `handleMMIO` and `handleMMIORead`, the devices by address. Behind the range of
-- the UART the source tests its addresses 0x10000005 and 0x10000000 once more; no address that
-- gets there passes.
use riscv_sym.Base.{
  ℕ, ◌+◌, ◌-◌, bit_and, bit_or, ◌==◌, ltb, leb, if◌then◌else◌, Bool, true, false, Option, none,
  some, ◌>>>◌, ◌<<<◌, ◌&&◌,
}
use riscv_sym.State.{Memory}
use riscv_sym.Memory.Spi.{spi_step}
use riscv_sym.Memory.Uart.{has_char, no_char, is_uart_irq_pending, uart_write, uart_read}

abbrev pub uart_addr : ℕ
uart_addr = 0x1000_0000

abbrev pub plic_sclaim_addr : ℕ
plic_sclaim_addr = 0x0c20_1004

-- Whether the store went to a device.
unfoldable pub handle_mmio : ℕ → ℕ → Memory → Bool × Memory
handle_mmio address value m =
    if address == 0x0200_4000
    then (true, record m { mtimecmp = bit_or (bit_and m.mtimecmp 0xffff_ffff_0000_0000) value })
    else if address == 0x0200_4004
    then (true, record m { mtimecmp = bit_or (bit_and m.mtimecmp 0xffff_ffff) (value <<< 32) })
    else if leb uart_addr address && ltb address (uart_addr + 8)
    then (true, uart_write (address - uart_addr) value m)
    else if address == plic_sclaim_addr
    then (true, m)
    else if address == 0x1000_1004
    then (true, m)
    else if address == 0x1000_1000
    then (true, spi_step (bit_and value 0xff) m)
    else (false, m)

-- The value that a device gives, if the address belongs to one.
unfoldable pub handle_mmio_read : ℕ → Memory → Option ℕ × Memory
handle_mmio_read address m =
    if address == 0x0200_bff8
    then (some (bit_and m.mtime 0xffff_ffff), m)
    else if address == 0x0200_bffc
    then (some (bit_and (m.mtime >>> 32) 0xffff_ffff), m)
    else if address == 0x0200_4000
    then (some (bit_and m.mtimecmp 0xffff_ffff), m)
    else if address == 0x0200_4004
    then (some (bit_and (m.mtimecmp >>> 32) 0xffff_ffff), m)
    else if leb uart_addr address && ltb address (uart_addr + 8)
    then (let (v, m') = uart_read (address - uart_addr) m in (some v, m'))
    else if address == 0x1000_0005
    then (some (if has_char m then 0x21 else 0x20), m)
    else if address == uart_addr
    then (if has_char m
        then (some m.uart_input_char, record m { uart_input_char = no_char })
        else (some 0, m))
    else if address == plic_sclaim_addr
    then (some (if is_uart_irq_pending m then 12 else 0), m)
    else if address == 0x1000_1004
    then (some 0, m)
    else if address == 0x1000_1000
    then (some m.spi_read_buffer, m)
    else (none, m)
