-- ===== src/Range/Card.antt =====
-- core/Memory.cpp: the SD card keeps its members in range.
use riscv_sym.Base.{
  ℕ, ◌+◌, ◌*◌, ◌^◌, ◌<◌, ◌≤◌, ◌≡◌, ◌≢◌, ◌⊎◌, inl, inr, Bool, Bool-cases, ltb, ◌&&◌, ◌||◌, arith,
  List, [], ◌∷◌, ◌>>>◌, zero, suc, u32, leb, ◌==◌, if◌then◌else◌,
}
use riscv_sym.Base.Lists.{set, take, drop, length}
use riscv_sym.Base.Bits.Laws.{bit_or-lt}
use riscv_sym.Base.Bits.Field.{bit_and_low}
use riscv_sym.State.{Memory}
use riscv_sym.Memory.Spi.{
  get_crc16, spi_step, spi_idle, spi_argument, spi_start, spi_read_block, spi_write_block,
}
use riscv_sym.Range.Defs.{Bytes, CardInRange, MemoryInRange, either, either_by}
use riscv_sym.Range.Members.{mask8-lt, card-InRange}

set-Bytes : (xs : List ℕ) (i v : ℕ) → v < 2 ^ 8 → Bytes xs → Bytes (set xs i v)
set-Bytes [] i v hv h j = h j
set-Bytes (x ∷ xs) zero v hv h zero = hv
set-Bytes (x ∷ xs) zero v hv h (suc j) = h (suc j)
set-Bytes (x ∷ xs) (suc i) v hv h zero = h 0
set-Bytes (x ∷ xs) (suc i) v hv h (suc j) = set-Bytes xs i v hv (λ k. h (suc k)) j

get_crc16-lt : (xs : List ℕ) → get_crc16 xs < 2 ^ 16
unfolding get_crc16
get_crc16-lt xs = omega (arith, bit_and_low 16 _)

module _ (m : Memory) (h : MemoryInRange m) where
  idle-InRange : (b : ℕ) → MemoryInRange (spi_idle b m)
  unfolding spi_idle
  idle-InRange b =
      either MemoryInRange (b == 0xff) _ _
        (card-InRange m h _ _ _ _ _ 0xff _ _ _ _ h.spi_cmd h.spi_arg (omega arith) h.spi_crc h.disk
          h.card)
        (card-InRange m h 1 _ _ 0 _ 0xff _ _ _ _ (omega (arith, bit_and_low 6 b)) (omega arith)
          (omega arith) h.spi_crc h.disk
          (let k = h.card in
            record {
              state = omega arith;
              arg_bytes = omega arith;
              argument = inr (omega arith);
              sent = k.sent;
              clocks = k.clocks;
            }))

  argument-InRange : (b : ℕ) → b < 2 ^ 8 → m.spi_state ≡ 1 → MemoryInRange (spi_argument b m)
  unfolding spi_argument
  argument-InRange b hb e =
      card-InRange m h _ _ _ _ _ _ _ _ _ _ h.spi_cmd
        (bit_or-lt 32 (u32 (m.spi_arg * 2 ^ 8)) b (omega arith) (omega arith)) h.spi_buffer
        h.spi_crc h.disk
        (let k = h.card in
          let lt = k.argument in
          record {
            state = ground (arith, e);
            arg_bytes = ground (arith, e, lt);
            argument = counting (m.spi_arg_bytes_received) (ground (arith, e, lt)) e;
            sent = k.sent;
            clocks = k.clocks;
          })
    where
      counting :
          (n : ℕ)
          → n < 4
          → m.spi_state ≡ 1
          → ((if n + 1 == 4 then 2 else m.spi_state) ≢ 1) ⊎ (n + 1 < 4)
      counting n lt e = elim (Bool-cases (n + 1 == 4)) [
        | inl e4 ↦ rw e4 (inl (λ f. omega arith))
        | inr ne ↦ inr (ground arith)
      ]

  -- A state other than 1, with what the card has counted.
  counts :
      (s n c : ℕ) → s ≤ 4 → s ≢ 1 → n ≤ 516 → c ≤ 1 → CardInRange s m.spi_arg_bytes_received n c
  counts s n c hs ne hn hc =
      let k = h.card in
      record { state = hs; arg_bytes = k.arg_bytes; argument = inl ne; sent = hn; clocks = hc }

  start-InRange : MemoryInRange (spi_start m)
  unfolding spi_start
  start-InRange =
      either MemoryInRange (m.spi_cmd == 17) _ _
        (plain 3 0 (omega arith) (λ e. omega arith) (omega arith))
        (either MemoryInRange (m.spi_cmd == 24) _ _
          (plain 4 0 (omega arith) (λ e. omega arith) (omega arith))
          (plain 0 _ (omega arith) (λ e. omega arith) (let k = h.card in k.sent)))
    where
      plain :
          (state sent : ℕ)
          → state ≤ 4
          → state ≢ 1
          → sent ≤ 516
          → MemoryInRange (record m {
            spi_read_buffer = 0;
            spi_state = state;
            spi_data_bytes_transferred = sent;
          })
      plain state sent hs ne hn =
          card-InRange m h _ _ _ _ _ 0 _ _ _ _ h.spi_cmd h.spi_arg (omega arith) h.spi_crc h.disk
            (counts state sent _ hs ne hn (let k = h.card in k.clocks))

  sent-InRange :
      (state sent buffer crc : ℕ) (bad : Bool)
      → buffer < 2 ^ 8
      → crc < 2 ^ 16
      → state ≤ 4
      → state ≢ 1
      → sent ≤ 516
      → MemoryInRange (record m {
        spi_state = state;
        spi_data_bytes_transferred = sent;
        spi_read_buffer = buffer;
        spi_current_crc = crc;
        undefined_read = bad;
      })
  sent-InRange state sent buffer crc bad hb hc hs ne hn =
      card-InRange m h _ _ _ _ _ _ _ _ _ bad h.spi_cmd h.spi_arg hb hc h.disk
        (counts state sent _ hs ne hn (let k = h.card in k.clocks))

  -- The block that is to be read, its checksum, and whether it is read behind the disk.
  abbrev block : List ℕ
  block = take 512 (drop (u32 (m.spi_arg * 512)) m.disk)

  abbrev checksum : ℕ
  checksum = if leb (u32 (u32 (m.spi_arg * 512) + 512)) (length m.disk) then get_crc16 block else 0

  abbrev behind : Bool
  behind =
      m.undefined_read
      || (leb (u32 (u32 (m.spi_arg * 512) + 512)) (length m.disk)
          && ltb (length m.disk) (u32 (m.spi_arg * 512) + 512))

  read_block-InRange : m.spi_state ≡ 3 → MemoryInRange (spi_read_block m)
  unfolding spi_read_block
  read_block-InRange e =
      let n = m.spi_data_bytes_transferred in
      let s = m.spi_state in
      let crc = m.spi_current_crc in
      let hs : s ≤ 4 = omega (arith, e) in
      let ne : s ≢ 1 = λ f. omega (arith, e) in
      let more = λ (x : ℕ) (hx : x < 2 ^ 8) (hn : n + 1 ≤ 516).
        sent-InRange s (n + 1) x crc m.undefined_read hx h.spi_crc hs ne hn in
      either_by MemoryInRange (n == 0) _ _
        (λ e.
          sent-InRange s (n + 1) 0 checksum behind (omega arith)
            (either (λ c. c < 2 ^ 16) (leb _ _) _ 0 (get_crc16-lt block) (omega arith)) hs ne
            (ground (arith, e)))
        (λ _.
          either_by MemoryInRange (n == 1) _ _ (λ e. more 0xfe (omega arith) (ground (arith, e)))
            (λ _.
              either_by MemoryInRange (leb n 513) _ _ (λ e. more _ (h.disk _) (ground (arith, e)))
                (λ _.
                  either_by MemoryInRange (n == 514) _ _
                    (λ e. more _ (mask8-lt (crc >>> 8)) (ground (arith, e)))
                    (λ _.
                      either_by MemoryInRange (n == 515) _ _
                        (λ e. more _ (mask8-lt crc) (ground (arith, e)))
                        (λ _.
                          sent-InRange 0 n 0xff crc _ (omega arith) h.spi_crc (omega arith)
                            (λ f. omega arith) (let k = h.card in k.sent))))))

  -- The answer before the block.
  primed : Memory
  primed =
      if m.clock_count == 0
      then record m { spi_read_buffer = 0; clock_count = 1 }
      else record m { spi_read_buffer = 0xff }

  primed-InRange : m.spi_state ≡ 4 → MemoryInRange primed
  unfolding primed
  primed-InRange e =
      either MemoryInRange (m.clock_count == 0) _ _
        (card-InRange m h _ _ _ _ _ 0 _ 1 _ _ h.spi_cmd h.spi_arg (omega arith) h.spi_crc h.disk (
          let k = h.card in
          counts m.spi_state _ 1 (omega (arith, e)) (λ f. omega (arith, e)) k.sent (omega arith)))
        (card-InRange m h _ _ _ _ _ 0xff _ _ _ _ h.spi_cmd h.spi_arg (omega arith) h.spi_crc h.disk
          h.card)

  write_block-InRange : (b : ℕ) → b < 2 ^ 8 → m.spi_state ≡ 4 → MemoryInRange (spi_write_block b m)
  unfolding spi_write_block primed
  write_block-InRange b hb e =
      let n = m.spi_data_bytes_transferred in
      let k = h.card in
      let hs : m.spi_state ≤ 4 = omega (arith, e) in
      let ne : m.spi_state ≢ 1 = λ f. omega (arith, e) in
      either MemoryInRange (n == 0) _ _
        (either MemoryInRange (b == 0xfe) _ _
          (let p = primed-InRange e in
            let c = p.card in
            card-InRange primed p _ _ _ _ _ _ _ _ _ _ p.spi_cmd p.spi_arg p.spi_buffer p.spi_crc
              p.disk
              (record {
                state = c.state;
                arg_bytes = c.arg_bytes;
                argument = c.argument;
                sent = omega arith;
                clocks = omega arith;
              }))
          (primed-InRange e))
        (either_by MemoryInRange (leb n 512) _ _
          (λ le.
            card-InRange m h _ _ _ _ _ _ _ _ _ _ h.spi_cmd h.spi_arg h.spi_buffer h.spi_crc
              (set-Bytes m.disk _ b hb h.disk)
              (counts m.spi_state (n + 1) _ hs ne (ground (arith, le)) k.clocks))
          (λ _.
            either_by MemoryInRange (leb n 514) _ _
              (λ le. sent-InRange _ _ _ _ _ h.spi_buffer h.spi_crc hs ne (ground (arith, le)))
              (λ _.
                sent-InRange _ _ 5 _ _ (omega arith) h.spi_crc (omega arith) (λ f. omega arith)
                  k.sent)))

  pub card_step-InRange : (b : ℕ) → b < 2 ^ 8 → MemoryInRange (spi_step b m)
  unfolding spi_step
  card_step-InRange b hb = either MemoryInRange (m.spi_state == 0) _ _ (idle-InRange b) (
      either_by MemoryInRange (m.spi_state == 1) _ _
        (λ e. argument-InRange b hb (ground (arith, e)))
        (λ _. either MemoryInRange (m.spi_state == 2) _ _ start-InRange (
          either_by MemoryInRange (m.spi_state == 3) _ _
            (λ e. read_block-InRange (ground (arith, e)))
            (λ _.
              either_by MemoryInRange (m.spi_state == 4) _ _
                (λ e. write_block-InRange b hb (ground (arith, e))) (λ _. h)))))
