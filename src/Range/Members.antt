-- ===== src/Range/Members.antt =====
-- core/Memory.cpp: groups of members that are set anew stay in range.
use riscv_sym.Base.{ℕ, ◌^◌, ◌<◌, arith, bit_and, List, Bool}
use riscv_sym.Base.Bits.Field.{bit_and_low}
use riscv_sym.State.{Memory}
use riscv_sym.Memory.Pages.{load_byte}
use riscv_sym.Range.Defs.{Bytes, CardInRange, MemoryInRange}

pub mask8-lt : (x : ℕ) → bit_and x 0xff < 2 ^ 8
mask8-lt x = omega (arith, bit_and_low 8 x)

pub mask32-lt : (x : ℕ) → bit_and x 0xffff_ffff < 2 ^ 32
mask32-lt x = omega (arith, bit_and_low 32 x)

module _ (m : Memory) (h : MemoryInRange m) where
  -- The members of the card anew.
  pub card-InRange :
      (state cmd arg arg_bytes sent buffer crc clocks : ℕ) (disk : List ℕ) (bad : Bool)
      → cmd < 2 ^ 8
      → arg < 2 ^ 32
      → buffer < 2 ^ 8
      → crc < 2 ^ 16
      → Bytes disk
      → CardInRange state arg_bytes sent clocks
      → MemoryInRange (record m {
        spi_state = state;
        spi_cmd = cmd;
        spi_arg = arg;
        spi_arg_bytes_received = arg_bytes;
        spi_data_bytes_transferred = sent;
        spi_read_buffer = buffer;
        spi_current_crc = crc;
        clock_count = clocks;
        undefined_read = bad;
        disk = disk;
      })
  unfolding load_byte
  card-InRange state cmd arg arg_bytes sent buffer crc clocks disk bad hc ha hb hr hd hk = record {
    ram = h.ram;
    disk = hd;
    mtime = h.mtime;
    mtimecmp = h.mtimecmp;
    satp = h.satp;
    spi_cmd = hc;
    spi_arg = ha;
    spi_buffer = hb;
    spi_crc = hr;
    card = hk;
    uart_char = h.uart_char;
    uart_regs = h.uart_regs;
    stdin = h.stdin;
  }

  -- The members of the serial port anew.
  pub port-InRange :
      (c : ℕ) (regs : ℕ → ℕ) (pending tx : Bool) (console : List ℕ)
      → c < 2 ^ 32
      → ((i : ℕ) → regs i < 2 ^ 8)
      → MemoryInRange (record m {
        uart_input_char = c;
        uart_regs = regs;
        uart_irq_pending = pending;
        uart_tx_irq = tx;
        console = console;
      })
  unfolding load_byte
  port-InRange c regs pending tx console hc hr = record {
    ram = h.ram;
    disk = h.disk;
    mtime = h.mtime;
    mtimecmp = h.mtimecmp;
    satp = h.satp;
    spi_cmd = h.spi_cmd;
    spi_arg = h.spi_arg;
    spi_buffer = h.spi_buffer;
    spi_crc = h.spi_crc;
    card = h.card;
    uart_char = hc;
    uart_regs = hr;
    stdin = h.stdin;
  }

  -- The clocks and the register of the root table anew.
  pub clock-InRange :
      (mtime mtimecmp satp logs : ℕ)
      → mtime < 2 ^ 64
      → mtimecmp < 2 ^ 64
      → satp < 2 ^ 32
      → MemoryInRange (record m {
        mtime = mtime;
        mtimecmp = mtimecmp;
        current_satp = satp;
        satp_log_count = logs;
      })
  unfolding load_byte
  clock-InRange mtime mtimecmp satp logs ht hc hs = record {
    ram = h.ram;
    disk = h.disk;
    mtime = ht;
    mtimecmp = hc;
    satp = hs;
    spi_cmd = h.spi_cmd;
    spi_arg = h.spi_arg;
    spi_buffer = h.spi_buffer;
    spi_crc = h.spi_crc;
    card = h.card;
    uart_char = h.uart_char;
    uart_regs = h.uart_regs;
    stdin = h.stdin;
  }

  -- Standard input and output.
  pub streams-InRange :
      (stdin console : List ℕ)
      → Bytes stdin
      → MemoryInRange (record m { stdin = stdin; console = console })
  unfolding load_byte
  streams-InRange stdin console hs = record {
    ram = h.ram;
    disk = h.disk;
    mtime = h.mtime;
    mtimecmp = h.mtimecmp;
    satp = h.satp;
    spi_cmd = h.spi_cmd;
    spi_arg = h.spi_arg;
    spi_buffer = h.spi_buffer;
    spi_crc = h.spi_crc;
    card = h.card;
    uart_char = h.uart_char;
    uart_regs = h.uart_regs;
    stdin = hs;
  }
