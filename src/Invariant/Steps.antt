-- ===== src/Invariant/Steps.antt =====
-- Every round of the loop of core/RiscvCpu.cpp and every run keep an invariant.
use riscv_sym.Invariant.Interface.{Invariant}
use riscv_sym.Base.{
  ℕ, leb, zero, suc, ◌+◌, ◌%◌, ◌^◌, ◌<◌, ◌≡◌, refl, u64, ◌==◌, if◌then◌else◌, Bool, true, false,
  arith, Option, none, some, not, ◌&&◌, bit_and, bit_or, u32, not32,
}
use riscv_sym.State.{Machine, ok, raise, Outcome, Exception, page_fault, AccessType}
use riscv_sym.Csr
use riscv_sym.Csr.Address
use riscv_sym.Csr.Laws.{set_mip-IsValid}
use riscv_sym.Cpu.{take_trap, csr_read}
use riscv_sym.Cpu.Causes
use riscv_sym.Instruction.CType.{decompress}
use riscv_sym.Instruction.CType.Words.{decompress-IsExpansion}
use riscv_sym.Memory.Uart.{poll_keyboard}
use riscv_sym.Run.{
  Round, next, stop, escape, round, run, run_instruction, handle, after_instruction, advance,
  interrupt_cause, page_fault_cause, pending_mip, put_bits,
}
use riscv_sym.Base.Bits.Laws.{bit_and-lt, bit_or-lt}
use riscv_sym.Range.Defs.{either}
use riscv_sym.Range.Members.{clock-InRange}
use riscv_sym.Range.Devices.{keyboard-InRange}
use riscv_sym.Range.Traps.{csr_read-lt}
use riscv_sym.Invariant.Safe.{Holds, Word, Any, Sound, Safe, done, thrown, memory-Holds, jump-Holds}
use riscv_sym.Invariant.Commands.{u32-Word, read32-Keeps}
use riscv_sym.Invariant.Traps.{take_trap-Holds, csrs-Holds}
use riscv_sym.Invariant.Execute.{execute-Keeps}

-- The state at the end of a round.
abbrev pub state : Round → Machine
state (next m) = m
state (stop m) = m
state (escape e m) = m

-- What may end the loop from inside: what C++ leaves undefined (a shift of 32 or more, a read behind
-- the disk, an index behind the largest int) and a string without an end. A page fault becomes a
-- trap, and the `std::out_of_range` of an array does not come up.
abbrev pub Leaves : Exception → Type 0
Leaves (page_fault v type) = ⊥
Leaves Exception.out_of_range = ⊥
Leaves Exception.undefined_shift = Unit
Leaves Exception.undefined_read = Unit
Leaves Exception.undefined_overflow = Unit
Leaves Exception.out_of_fuel = Unit

abbrev pub Ends : Round → Type 0
Ends (next m) = Unit
Ends (stop m) = Unit
Ends (escape e m) = Leaves e

module _ ⦃inv : Invariant⦄ where
  -- The end of a round under the invariant.
  abbrev pub Allowed : Round → Type 0
  Allowed r = Holds (state r) × Ends r

  put_bits-lt : (b : Bool) (mask x : ℕ) → mask < 2 ^ 32 → x < 2 ^ 32 → put_bits b mask x < 2 ^ 32
  put_bits-lt b mask x hm hx =
      either (λ v. v < 2 ^ 32) b _ _ (bit_or-lt 32 x mask hx hm) (bit_and-lt 32 x (not32 mask) hx)

  pending_mip-lt : (m : Machine) → csr_read m Address.mip < 2 ^ 32 → pending_mip m < 2 ^ 32
  unfolding pending_mip
  pending_mip-lt m h = put_bits-lt _ _ _ (omega arith) (
      put_bits-lt _ _ _ (omega arith)
        (put_bits-lt _ _ _ (omega arith) (put_bits-lt _ _ _ (omega arith) h)))

  advance-Holds : (m : Machine) → Holds m → Holds (advance m)
  unfolding advance
  advance-Holds m h =
      let mem = record (m.mem) { mtime = u64 (m.mem.mtime + 1) } in
      let m' : Machine = record m { pc = m.next_pc; mem = mem } in
      let h' : Holds m' =
        memory-Holds mem (record m { pc = m.next_pc })
          (λ t.
            let g = (h.2 t).mem in clock-InRange m.mem g _ _ _ _ (omega arith) g.mtimecmp g.satp)
          (jump-Holds m.next_pc m.next_pc m (λ t. (h.2 t).next_pc) (λ t. (h.2 t).next_pc) h) in
      csrs-Holds (Csr.set_mip m'.csrs (pending_mip m')) m'
        (inv.set_mip-Of m'.privilege_mode m'.csrs _ (h'.1))
        (λ t.
          let g = h'.2 t in
          set_mip-IsValid m'.csrs _ g.csrs (pending_mip-lt m' (csr_read-lt m' g Address.mip)))
        h'

  interrupt_cause-lt : (m : Machine) (c : ℕ) → interrupt_cause m ≡ some c → c < 2 ^ 31
  unfolding interrupt_cause
  interrupt_cause-lt m c e = ground arith

  after_instruction-Holds : (m : Machine) → Holds m → Holds (after_instruction m)
  unfolding after_instruction advance
  after_instruction-Holds m h = go (interrupt_cause (advance m)) refl
    where
      go :
          (o : Option ℕ)
          → interrupt_cause (advance m) ≡ o
          → Holds (elim o [
            | some c ↦ take_trap (bit_or 0x8000_0000 c) 0 (advance m)
            | none ↦ advance m
          ])
      go none e = advance-Holds m h
      go (some c) e =
          let lt = interrupt_cause-lt (advance m) c e in
          take_trap-Holds (bit_or 0x8000_0000 c) 0 (advance m)
            (λ t. bit_or-lt 32 0x8000_0000 c (omega arith) (omega arith)) (λ t. omega arith)
            (advance-Holds m h)

  page_fault_cause-lt : (type : AccessType) → page_fault_cause type < 2 ^ 32
  unfolding page_fault_cause
  page_fault_cause-lt AccessType.instruction_fetch = omega arith
  page_fault_cause-lt AccessType.load = omega arith
  page_fault_cause-lt AccessType.store = omega arith

  handle-Holds : (e : Exception) (m : Machine) → Sound e → Holds m → Allowed (handle e m)
  unfolding handle
  handle-Holds (page_fault v type) m s h =
      (take_trap-Holds (page_fault_cause type) v m (λ t. page_fault_cause-lt type) s h, tt)
  handle-Holds Exception.out_of_range m s h = absurd s
  handle-Holds Exception.undefined_shift m s h = (h, tt)
  handle-Holds Exception.undefined_read m s h = (h, tt)
  handle-Holds Exception.undefined_overflow m s h = (h, tt)
  handle-Holds Exception.out_of_fuel m s h = (h, tt)

  module _ (raw : ℕ) (hr : Word raw) where
    abbrev compressed : Bool
    compressed = not (bit_and raw 3 == 3)

    abbrev expanded : ℕ
    expanded = if compressed then decompress (bit_and raw 0xffff) else raw

    expanded-Word : Word expanded
    expanded-Word t =
        either (λ v. v < 2 ^ 32) compressed _ _
          (ground (arith, decompress-IsExpansion (bit_and raw 0xffff))) (hr t)

    executed-Holds :
        {o : Outcome Bool}
        → Safe Any o
        → Allowed (elim o [
          | ok true m ↦ next (after_instruction m)
          | ok false m ↦ next (take_trap Causes.illegal_instruction raw m)
          | raise e m ↦ handle e m
        ])
    executed-Holds (done {a = true} {m} q h) = (after_instruction-Holds m h, tt)
    executed-Holds (done {a = false} {m} q h) =
        (take_trap-Holds Causes.illegal_instruction raw m (λ t. omega arith) hr h, tt)
    executed-Holds (thrown {e} {m} s h) = handle-Holds e m s h

    run_instruction-Holds : (m : Machine) → Holds m → Allowed (run_instruction raw m)
    unfolding run_instruction
    run_instruction-Holds m h =
        let m' : Machine = record m { next_pc = u32 (m.pc + (if compressed then 2 else 4)) } in
        let h' : Holds m' = jump-Holds m.pc _ m (λ t. (h.2 t).pc) (u32-Word _) h in
        either Allowed ((expanded == 0) && (m.pc == 0)) _ _ (h', tt)
          (executed-Holds (execute-Keeps expanded expanded-Word m' h'))

  fetched-Holds :
      {o : Outcome ℕ}
      → Safe Word o
      → Allowed (elim o [ ok raw m ↦ run_instruction raw m | raise e m ↦ handle e m ])
  fetched-Holds (done {a} {m} q h) = run_instruction-Holds a q m h
  fetched-Holds (thrown {e} {m} s h) = handle-Holds e m s h

  -- What the keyboard gives is a byte.
  abbrev pub Typing : Option ℕ → Type 0
  Typing typed = inv.Typed → (c : ℕ) → typed ≡ some c → c < 2 ^ 8

  polled-Holds :
      (b : Bool) (typed : Option ℕ) (m : Machine)
      → Typing typed
      → Holds m
      → Holds (if b then record m { mem = poll_keyboard typed m.mem } else m)
  polled-Holds b typed m ht h =
      either Holds b _ m
        (memory-Holds _ m (λ t. keyboard-InRange m.mem ((h.2 t).mem) typed (ht t)) h) h

  pub round-Holds :
      (i : ℕ) (typed : Option ℕ) (m : Machine) → Typing typed → Holds m → Allowed (round i typed m)
  unfolding round
  round-Holds i typed m ht h =
      let b = i % 100000 == 0 in
      let m' : Machine = if b then record m { mem = poll_keyboard typed m.mem } else m in
      let h' = polled-Holds b typed m ht h in
      either Allowed m.shutdown_requested (stop m) _ (h, tt)
        (fetched-Holds (read32-Keeps m'.pc true (λ t. (h'.2 t).pc) m' h'))

  pub run-Holds :
      (fuel i : ℕ) (typed : ℕ → Option ℕ) (m : Machine)
      → ((j : ℕ) → Typing (typed j))
      → Holds m
      → Allowed (run fuel i typed m)
  unfolding run
  run-Holds zero i typed m ht h = (h, tt)
  run-Holds (suc fuel) i typed m ht h =
      either Allowed (m.mem.undefined_read) _ _ (h, tt)
        (either Allowed (leb (2 ^ 31) i) _ _ (h, tt)
          (go (round i (typed i) m) (round-Holds i (typed i) m (ht i) h)
            (λ m. run-Holds fuel (i + 1) typed m ht)))
    where
      go :
          (r : Round)
          → Allowed r
          → ((m : Machine) → Holds m → Allowed (run fuel (i + 1) typed m))
          → Allowed (elim r [
            | next m ↦ run fuel (i + 1) typed m
            | stop m ↦ stop m
            | escape e m ↦ escape e m
          ])
      go (next m) (h, e) rest = rest m h
      go (stop m) h rest = h
      go (escape e m) h rest = h
