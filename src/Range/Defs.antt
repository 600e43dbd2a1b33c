-- ===== src/Range/Defs.antt =====
-- The types of the members in core/include/core/RiscvCpu.h and Memory.h: uint8_t, uint32_t, uint64_t, and the ints
-- that count.
use riscv_sym.Base.{ℕ, refl, ◌≡◌, ◌≢◌, ◌≤◌, ◌⊎◌, ◌^◌, ◌<◌, List, Bool, true, false, if◌then◌else◌}
use riscv_sym.Base.Lists.{get_or}
use riscv_sym.State.{Machine, Memory}
use riscv_sym.Csr.Laws.{IsValid}
use riscv_sym.Memory.Pages.{load_byte, Ptr}

-- Every entry of an array of bytes, also where a read behind its end gives 0.
abbrev pub Bytes : List ℕ → Type 0
Bytes xs = (i : ℕ) → get_or xs i 0 < 2 ^ 8

-- The counters of the SD card, which are ints, by the state that counts.
pub record CardInRange (s received transferred count : ℕ) : Type 0 where
  pub state : s ≤ 4
  pub arg_bytes : received ≤ 4
  pub argument : (s ≢ 1) ⊎ (received < 4)
  pub sent : transferred ≤ 516
  pub clocks : count ≤ 1

pub record MemoryInRange (m : Memory) : Type 0 where
  pub ram : (ptr : Ptr) (k : ℕ) → load_byte ptr k m < 2 ^ 8
  pub disk : Bytes (m.disk)
  pub mtime : m.mtime < 2 ^ 64
  pub mtimecmp : m.mtimecmp < 2 ^ 64
  pub satp : m.current_satp < 2 ^ 32
  pub spi_cmd : m.spi_cmd < 2 ^ 8
  pub spi_arg : m.spi_arg < 2 ^ 32
  pub spi_buffer : m.spi_read_buffer < 2 ^ 8
  pub spi_crc : m.spi_current_crc < 2 ^ 16
  pub card :
      CardInRange m.spi_state m.spi_arg_bytes_received m.spi_data_bytes_transferred m.clock_count
  pub uart_char : m.uart_input_char < 2 ^ 32
  pub uart_regs : (i : ℕ) → m.uart_regs i < 2 ^ 8
  pub stdin : Bytes (m.stdin)

pub record InRange (m : Machine) : Type 0 where
  pub regs : (r : ℕ) → m.regs r < 2 ^ 32
  pub pc : m.pc < 2 ^ 32
  pub next_pc : m.next_pc < 2 ^ 32
  pub csrs : IsValid m.csrs
  pub reservation : m.reservation_address < 2 ^ 32
  pub mem : MemoryInRange m.mem

-- What holds of both branches.
pub either {ℓ} :
    {A : Type ℓ} (P : A → Type 0) (b : Bool) (x y : A) → P x → P y → P (if b then x else y)
either P true x y hx hy = hx
either P false x y hx hy = hy

-- The same, where each branch knows the test.
pub either_by {ℓ} :
    {A : Type ℓ} (P : A → Type 0) (b : Bool) (x y : A)
    → (b ≡ true → P x)
    → (b ≡ false → P y)
    → P (if b then x else y)
either_by P true x y hx hy = hx refl
either_by P false x y hx hy = hy refl
