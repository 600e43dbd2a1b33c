-- ===== src/Run/Types.antt =====
-- core/RiscvCpu.cpp: the C++ types of the members over a whole run, from the kernel's file on.
use riscv_sym.Base.{ℕ, ◌^◌, ◌<◌, ◌≡◌, arith, Option, some}
use riscv_sym.State.{Machine}
use riscv_sym.Csr.Laws.{reset-IsValid}
use riscv_sym.Cpu.{cancel_reservation}
use riscv_sym.Memory.Access
use riscv_sym.Memory.Pages.{load_byte}
use riscv_sym.Run
use riscv_sym.Run.{Round, next, stop, escape, run}
use riscv_sym.Range.Defs.{InRange}
use riscv_sym.Invariant.Interface.{Invariant}

-- The invariant that asks for the types.
instance abbrev typed_members : Invariant
typed_members = record {
  Of = λ mode csrs. Unit;
  Typed = Unit;
  write-Of = λ mode csrs a v h. h;
  set_mip-Of = λ mode csrs v h. h;
  take_trap-Of = λ cause value m h. h;
  return_from_trap-Of = λ p m h. h;
}

-- What the keyboard gives, at each round, is a byte.
abbrev pub Keys : (ℕ → Option ℕ) → Type 0
Keys typed = (i c : ℕ) → typed i ≡ some c → c < 2 ^ 8

-- A reset leaves every member inside its type.
pub reset-InRange : (m : Machine) → InRange m → InRange (Run.reset m)
unfolding Run.reset cancel_reservation Access.reset load_byte
reset-InRange m h = record {
  regs = λ r. ground arith;
  pc = omega arith;
  next_pc = h.next_pc;
  csrs = reset-IsValid;
  reservation = h.reservation;
  mem = record {
    ram = λ ptr k. omega arith;
    disk = h.mem.disk;
    mtime = h.mem.mtime;
    mtimecmp = h.mem.mtimecmp;
    satp = omega arith;
    spi_cmd = h.mem.spi_cmd;
    spi_arg = h.mem.spi_arg;
    spi_buffer = h.mem.spi_buffer;
    spi_crc = h.mem.spi_crc;
    card = h.mem.card;
    uart_char = h.mem.uart_char;
    uart_regs = h.mem.uart_regs;
    stdin = h.mem.stdin;
  };
}
