-- ===== src/State/Defs.antt =====
-- The records: core/include/core/Memory.h, CsrUnit.h and RiscvCpu.h.
use riscv_sym.Base.{ℕ, Bool, Option, List, ◌==◌, if◌then◌else◌}

pub data PrivilegeMode : Type 0 where
  user supervisor reserved machine : PrivilegeMode

-- The enumerator's value.
abbrev pub mode_code : PrivilegeMode → ℕ
mode_code user = 0
mode_code supervisor = 1
mode_code reserved = 2
mode_code machine = 3

-- `static_cast<PrivilegeMode>` of a number below 4.
abbrev pub to_mode : ℕ → PrivilegeMode
to_mode n =
    if n == 0 then user else if n == 1 then supervisor else if n == 2 then reserved else machine

pub data AccessType : Type 0 where
  instruction_fetch load store : AccessType

-- An array or a table as a function, with one entry given anew.
abbrev pub update {ℓ} : {A : Type ℓ} → (ℕ → A) → ℕ → A → ℕ → A
update f k v j = if j == k then v else f j

-- `CsrUnit::_csrs`.
abbrev pub Csrs : Type 0
Csrs = ℕ → ℕ

-- `std::array<uint8_t, PAGE_SIZE>`.
abbrev pub Page : Type 0
Page = ℕ → ℕ

pub record Memory : Type 0 where
  pub pages : ℕ → Option Page
  pub disk : List ℕ
  pub mtime : ℕ
  pub mtimecmp : ℕ
  pub current_satp : ℕ
  pub spi_state : ℕ
  pub spi_cmd : ℕ
  pub spi_arg : ℕ
  pub spi_arg_bytes_received : ℕ
  pub spi_data_bytes_transferred : ℕ
  pub spi_read_buffer : ℕ
  pub spi_current_crc : ℕ
  pub uart_input_char : ℕ  -- an int, as its 32-bit pattern
  pub uart_regs : ℕ → ℕ
  pub uart_irq_pending : Bool
  pub uart_tx_irq : Bool
  pub clock_count : ℕ  -- the static local of `handleMMIO`
  -- no member: whether `handleMMIO` has read behind the disk, which C++ leaves undefined
  pub undefined_read : Bool
  pub satp_log_count : ℕ  -- the static local of `setSATP`
  pub stdin : List ℕ  -- the bytes that `fgetc(stdin)` has not given yet
  pub console : List ℕ  -- the bytes written to standard output, the last one first

pub record Machine : Type 0 where
  pub regs : ℕ → ℕ
  pub pc : ℕ
  pub next_pc : ℕ
  pub csrs : Csrs
  pub mem : Memory
  pub privilege_mode : PrivilegeMode
  pub reservation_valid : Bool
  pub reservation_address : ℕ
  pub shutdown_requested : Bool
