-- ===== src/Memory/WriteBlock.antt =====
-- core/Memory.cpp: a block that a driver writes to the SD card, and reads back.
use riscv_sym.Base.{ℕ, ◌+◌, ◌≡◌, List, [], ◌∷◌, ◌++◌}
use riscv_sym.Base.Lists.{set}
use riscv_sym.State.{Memory}
use riscv_sym.Memory.Block.{clocks}
use riscv_sym.Memory.Driver.{command}

-- The disk behind stores of a list of bytes from an index on.
abbrev pub written : ℕ → List ℕ → List ℕ → List ℕ
written i [] disk = disk
written i (b ∷ bs) disk = written (i + 1) bs (set disk i b)

-- A block is being written: `n` of its bytes are stored.
record Writing (n value : ℕ) (stored : List ℕ) (m' : Memory) : Type 0 where
  state : m'.spi_state ≡ 4
  transferred : m'.spi_data_bytes_transferred ≡ n + 1
  arg : m'.spi_arg ≡ value
  disk : m'.disk ≡ stored
  clocks : m'.clock_count ≡ 0

-- The checksum and one more byte end the transfer.
record Ended (stored : List ℕ) (m' : Memory) : Type 0 where
  state : m'.spi_state ≡ 0
  disk : m'.disk ≡ stored

-- The state between the bytes of the checksum.
record Closing (n : ℕ) (stored : List ℕ) (m' : Memory) : Type 0 where
  state : m'.spi_state ≡ 4
  transferred : m'.spi_data_bytes_transferred ≡ n
  disk : m'.disk ≡ stored

-- The message that writes a block: the command, the token, the bytes, a checksum of two bytes, and a
-- byte that the card answers.
abbrev pub write_message : ℕ → List ℕ → ℕ → ℕ → List ℕ
write_message block bytes c1 c2 = command 24 block ++ (0xfe ∷ (bytes ++ (c1 ∷ c2 ∷ 0xff ∷ [])))
