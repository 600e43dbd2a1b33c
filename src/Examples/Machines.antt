-- ===== src/Examples/Machines.antt =====
-- Machines for the examples.
use riscv_sym.Base.{◌^◌, false, none, [], ◌∷◌}
use riscv_sym.State.{Memory, Machine, machine, update, PrivilegeMode}
use riscv_sym.Csr.Address

abbrev pub empty_memory : Memory
empty_memory = record {
  pages = λ _. none;
  disk = 7 ∷ 8 ∷ 9 ∷ [];
  mtime = 0;
  mtimecmp = 0xffff_ffff_ffff_ffff;
  current_satp = 0;
  spi_state = 3;
  spi_cmd = 17;
  spi_arg = 0;
  spi_arg_bytes_received = 4;
  spi_data_bytes_transferred = 0;
  spi_read_buffer = 0xff;
  spi_current_crc = 0;
  uart_input_char = 0xffff_ffff;
  uart_regs = λ _. 0;
  uart_irq_pending = false;
  uart_tx_irq = false;
  clock_count = 0;
  undefined_read = false;
  satp_log_count = 0;
  stdin = [];
  console = [];
}

-- A machine behind its reset, with 5 in x10, 3 in x11 and page faults delegated.
abbrev pub start : Machine
start = record {
  regs = update (update (λ _. 0) 10 5) 11 3;
  pc = 0x8000_0000;
  next_pc = 0x8000_0000;
  csrs = update (update (λ _. 0) Address.mtvec 0x8000_1000) Address.medeleg (2 ^ 13);
  mem = empty_memory;
  privilege_mode = machine;
  reservation_valid = false;
  reservation_address = 0;
  shutdown_requested = false;
}

abbrev pub in_mode : PrivilegeMode → Machine
in_mode p = record start { privilege_mode = p }
