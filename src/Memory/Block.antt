-- ===== src/Memory/Block.antt =====
-- core/Memory.cpp: the protocol of the SD card: a block read and a block write, as a driver does them.
use riscv_sym.Base.{ℕ, ◌^◌, zero, suc, ◌+◌, ◌-◌, ◌*◌, ◌≤◌, ◌<◌, ◌≡◌, arith, refl, ap, ◌∙◌, sym, u32}
use riscv_sym.Base.Lists.{get_or}
use riscv_sym.State.{Memory}
use riscv_sym.Memory.Spi.{spi_step, spi_read_block}

-- The card after `n` bytes that carry nothing.
abbrev pub clocks : ℕ → Memory → Memory
clocks zero m = m
clocks (suc n) m = spi_step 0xff (clocks n m)

-- A block is being read, `n` answers have been given, and the disk is as in `m`.
record Reading (n : ℕ) (m m' : Memory) : Type 0 where
  state : m'.spi_state ≡ 3
  transferred : m'.spi_data_bytes_transferred ≡ n
  arg : m'.spi_arg ≡ m.spi_arg
  disk : m'.disk ≡ m.disk
  defined : m'.undefined_read ≡ m.undefined_read

-- The block does not end at 2 ^ 32 or behind it, where the sum in the test of the source wraps.
abbrev pub InBounds : Memory → Type 0
InBounds m = u32 (m.spi_arg * 512) + 512 < 2 ^ 32

same_block :
    {n : ℕ} (m m' : Memory) → Reading n m m' → InBounds m → u32 (m'.spi_arg * 512) + 512 < 2 ^ 32
same_block m m' r fits = rw r.arg fits

Reading-step :
    (n x : ℕ) (m m' : Memory)
    → InBounds m
    → n < 516
    → Reading n m m'
    → Reading (suc n) m (spi_step x m')
unfolding spi_step spi_read_block
Reading-step n x m m' fits lt r = record {
  state = ground (arith, r.state, r.transferred);
  transferred = ground (arith, r.state, r.transferred);
  arg = ground (arith, r.state, r.transferred, r.arg);
  disk = ground (arith, r.state, r.transferred, r.disk);
  defined = ground (arith, r.state, r.transferred, r.defined, same_block m m' r fits);
}

clocks-Reading :
    (n : ℕ) (m : Memory) → InBounds m → n ≤ 516 → Reading 0 m m → Reading n m (clocks n m)
clocks-Reading zero m fits lt r = r
clocks-Reading (suc n) m fits lt r =
    Reading-step n 0xff m (clocks n m) fits (omega arith) (clocks-Reading n m fits (omega arith) r)

suc-suc : (k : ℕ) → k + 3 ≡ suc (k + 2)
suc-suc k = omega arith

-- The answers.
answer0 : (x : ℕ) (m m' : Memory) → Reading 0 m m' → (spi_step x m').spi_read_buffer ≡ 0
unfolding spi_step spi_read_block
answer0 x m m' r = ground (arith, r.state, r.transferred)

answer1 : (x : ℕ) (m m' : Memory) → Reading 1 m m' → (spi_step x m').spi_read_buffer ≡ 0xfe
unfolding spi_step spi_read_block
answer1 x m m' r = ground (arith, r.state, r.transferred)

minus_two : (k : ℕ) → k + 2 - 2 ≡ k
minus_two k = omega arith

answer :
    (k x : ℕ) (m m' : Memory)
    → k < 512
    → Reading (k + 2) m m'
    → (spi_step x m').spi_read_buffer ≡ get_or m.disk (u32 (u32 (m.spi_arg * 512) + k)) 0
unfolding spi_step spi_read_block
answer k x m m' lt r =
    rw (sym r.arg, sym r.disk) (ground (arith, r.state, r.transferred, minus_two k))

-- The SD card answers the read of a block that ends below 2 ^ 32 with 0, the token 0xfe and the
-- 512 bytes of the disk that the argument names, 0 behind its end, leaves the disk alone, and does
-- not read behind it.
pub clocks-block :
    (m : Memory) (k : ℕ)
    → m.spi_state ≡ 3
    → m.spi_data_bytes_transferred ≡ 0
    → InBounds m
    → k < 512
    → ((clocks 1 m).spi_read_buffer ≡ 0)
      × ((clocks 2 m).spi_read_buffer ≡ 0xfe)
      × ((clocks (k + 3) m).spi_read_buffer ≡ get_or m.disk (u32 (m.spi_arg * 512) + k) 0)
      × ((clocks (k + 3) m).disk ≡ m.disk)
      × ((clocks (k + 3) m).undefined_read ≡ m.undefined_read)
clocks-block m k s t fits lt =
    let start : Reading 0 m m = record {
      state = s;
      transferred = t;
      arg = refl;
      disk = refl;
      defined = refl;
    } in
    let no_wrap : u32 (u32 (m.spi_arg * 512) + k) ≡ u32 (m.spi_arg * 512) + k = omega arith in
    let r = clocks-Reading (k + 2) m fits (omega arith) start in
    let buffer : (clocks (k + 3) m).spi_read_buffer
        ≡ get_or m.disk (u32 (u32 (m.spi_arg * 512) + k)) 0 =
      rw (suc-suc k) (answer k 0xff m (clocks (k + 2) m) lt r) in
    (
      answer0 0xff m m start,
      answer1 0xff m (clocks 1 m) (clocks-Reading 1 m fits (omega arith) start),
      buffer ∙ ap (λ (i : ℕ). get_or m.disk i 0) no_wrap,
      (clocks-Reading (k + 3) m fits (omega arith) start).disk,
      (clocks-Reading (k + 3) m fits (omega arith) start).defined,
    )
