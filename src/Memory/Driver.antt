-- ===== src/Memory/Driver.antt =====
-- core/Memory.cpp: a driver's dialogue with the SD card: a command with its argument.
use riscv_sym.Base.{
  ℕ, ◌+◌, ◌*◌, ◌/◌, ◌%◌, ◌^◌, ◌<◌, ◌≡◌, ◌∙◌, arith, ap, bit_or, ◌⊎◌, if◌then◌else◌, ◌==◌, List, [],
  ◌∷◌, u32,
}
use riscv_sym.Base.Bits.Field.{bit_and_low, bit_or_sum}
use riscv_sym.State.{Memory}
use riscv_sym.Memory.Spi.{spi_step, spi_idle, spi_argument, spi_start}

-- The bytes of a message to the card, one by one.
abbrev pub send : List ℕ → Memory → Memory
send [] m = m
send (b ∷ bs) m = send bs (spi_step b m)

-- A command: its number behind the start bits, the four bytes of the argument, and a checksum, which
-- the card ignores.
abbrev pub command : ℕ → ℕ → List ℕ
command number arg =
    (0x40 + number)
    ∷ (arg / 2 ^ 24 % 2 ^ 8)
    ∷ (arg / 2 ^ 16 % 2 ^ 8)
    ∷ (arg / 2 ^ 8 % 2 ^ 8)
    ∷ (arg % 2 ^ 8)
    ∷ 0xff
    ∷ []

-- The card waits for the rest of a command, behind `received` bytes of its argument.
record Waiting (number got value : ℕ) (m m' : Memory) : Type 0 where
  state : m'.spi_state ≡ (if got == 4 then 2 else 1)
  cmd : m'.spi_cmd ≡ number
  received : m'.spi_arg_bytes_received ≡ got
  arg : m'.spi_arg ≡ value
  disk : m'.disk ≡ m.disk
  clocks : m'.clock_count ≡ m.clock_count

idle-Waiting :
    (number : ℕ) (m : Memory)
    → number < 0x3f
    → m.spi_state ≡ 0
    → Waiting number 0 0 m (spi_step (0x40 + number) m)
unfolding spi_step spi_idle
idle-Waiting number m lt s = record {
  state = ground (arith, s);
  cmd = ground (arith, s, bit_and_low 6 (0x40 + number));
  received = ground (arith, s);
  arg = ground (arith, s);
  disk = ground (arith, s);
  clocks = ground (arith, s);
}

argument-Waiting :
    (cmd received arg b : ℕ) (m m' : Memory)
    → received < 4
    → arg < 2 ^ 24
    → b < 2 ^ 8
    → Waiting cmd received arg m m'
    → Waiting cmd (received + 1) (arg * 2 ^ 8 + b) m (spi_step b m')
unfolding spi_step spi_argument
argument-Waiting cmd received arg b m m' lt ha hb w =
    let joined : bit_or (u32 (arg * 2 ^ 8)) b ≡ arg * 2 ^ 8 + b =
      omega (arith, bit_or_sum 8 (u32 (arg * 2 ^ 8)) b (omega arith) hb) in
    let shifted : bit_or (u32 (m'.spi_arg * 2 ^ 8)) b ≡ arg * 2 ^ 8 + b =
      ap (λ (t : ℕ). bit_or (u32 (t * 2 ^ 8)) b) w.arg ∙ joined in
    record {
      state = ground (arith, w.state, w.received);
      cmd = ground (arith, w.state, w.cmd);
      received = ground (arith, w.state, w.received);
      arg = ground (arith, w.state, shifted);
      disk = ground (arith, w.state, w.disk);
      clocks = ground (arith, w.state, w.clocks);
    }

-- A block transfer is about to begin.
pub record Begins (phase value : ℕ) (m m' : Memory) : Type 0 where
  pub state : m'.spi_state ≡ phase
  pub transferred : m'.spi_data_bytes_transferred ≡ 0
  pub arg : m'.spi_arg ≡ value
  pub disk : m'.disk ≡ m.disk
  pub clocks : m'.clock_count ≡ m.clock_count

start-Begins :
    (cmd state arg b : ℕ) (m m' : Memory)
    → ((cmd ≡ 17) × (state ≡ 3)) ⊎ ((cmd ≡ 24) × (state ≡ 4))
    → Waiting cmd 4 arg m m'
    → Begins state arg m (spi_step b m')
unfolding spi_step spi_start
start-Begins cmd state arg b m m' which w = record {
  state = ground (arith, w.state, w.cmd);
  transferred = ground (arith, w.state, w.cmd);
  arg = ground (arith, w.state, w.cmd, w.arg);
  disk = ground (arith, w.state, w.cmd, w.disk);
  clocks = ground (arith, w.state, w.cmd, w.clocks);
}

-- A command with any argument of 32 bits begins its transfer, and leaves the disk alone.
pub command-Begins :
    (number phase arg : ℕ) (m : Memory)
    → ((number ≡ 17) × (phase ≡ 3)) ⊎ ((number ≡ 24) × (phase ≡ 4))
    → arg < 2 ^ 32
    → m.spi_state ≡ 0
    → Begins phase arg m (send (command number arg) m)
command-Begins number phase arg m which ha s =
    let b3 : ℕ = arg / 2 ^ 24 % 2 ^ 8 in
    let b2 : ℕ = arg / 2 ^ 16 % 2 ^ 8 in
    let b1 : ℕ = arg / 2 ^ 8 % 2 ^ 8 in
    let b0 : ℕ = arg % 2 ^ 8 in
    let w0 = idle-Waiting number m (ground arith) s in
    let w1 = argument-Waiting number 0 0 b3 m _ (omega arith) (omega arith) (omega arith) w0 in
    let w2 = argument-Waiting number 1 _ b2 m _ (omega arith) (omega arith) (omega arith) w1 in
    let w3 = argument-Waiting number 2 _ b1 m _ (omega arith) (omega arith) (omega arith) w2 in
    let w4 = argument-Waiting number 3 _ b0 m _ (omega arith) (omega arith) (omega arith) w3 in
    let whole : (((0 * 2 ^ 8 + b3) * 2 ^ 8 + b2) * 2 ^ 8 + b1) * 2 ^ 8 + b0 ≡ arg = omega arith in
    let begins = start-Begins number phase _ 0xff m _ which w4 in
    record {
      state = begins.state;
      transferred = begins.transferred;
      arg = begins.arg ∙ whole;
      disk = begins.disk;
      clocks = begins.clocks;
    }
