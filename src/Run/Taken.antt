-- ===== src/Run/Taken.antt =====
-- core/RiscvCpu.cpp: a round of the loop takes an interrupt that is ready.
use riscv_sym.Base.{
  ℕ, ◌+◌, ◌^◌, ◌<◌, ◌≡◌, ◌≢◌, ◌∙◌, ◌%◌, ◌⊎◌, arith, refl, ap, Bool, true, false, Option, none, some,
  bit_and, bit_or, not, if◌then◌else◌, ◌==◌, ◌&&◌, u32,
}
use riscv_sym.Base.Bits.Field.{bit_or_sum}
use riscv_sym.State.{Machine, Outcome, ok, raise, reserved}
use riscv_sym.Cpu.{take_trap, delegate_to_s}
use riscv_sym.Cpu.Causes
use riscv_sym.Cpu.Trap.{MachineEntry}
use riscv_sym.Cpu.Delegate.{SupervisorEntry, take_trap_entry}
use riscv_sym.Memory.Access.{read32}
use riscv_sym.Memory.Uart.{poll_keyboard}
use riscv_sym.Instruction.CType.{decompress}
use riscv_sym.Instruction.Execute.{execute}
use riscv_sym.Run.{
  Round, next, round, run_instruction, after_instruction, advance, interrupt_cause, handle,
}
use riscv_sym.Run.Interrupt.{Ready, Open, interrupt_cause-Ready, interrupt_cause-none}

-- The entry of a trap into the mode that it is delegated to.
abbrev pub Entered : ℕ → Machine → Machine → Type 0
Entered cause m m' =
    ((delegate_to_s cause m ≡ true) × SupervisorEntry cause 0 m m')
    ⊎ ((delegate_to_s cause m ≡ false) × MachineEntry cause 0 m m')

interrupt_code : (c : ℕ) → c < 2 ^ 31 → bit_or 0x8000_0000 c ≡ 2 ^ 31 + c
interrupt_code c h = bit_or_sum 31 0x8000_0000 c refl h

-- What follows an instruction takes one of the interrupts that are ready.
after_instruction-Ready :
    (m : Machine) (c : ℕ)
    → Open (advance m) c
    → Ready (advance m) c
    → (c' : ℕ) × Open (advance m) c'
      × Ready (advance m) c'
      × (after_instruction m ≡ take_trap (2 ^ 31 + c') 0 (advance m))
unfolding after_instruction
after_instruction-Ready m c gate ready = go (interrupt_cause a) refl
  where
    a : Machine
    a = advance m

    go :
        (o : Option ℕ)
        → interrupt_cause a ≡ o
        → (c' : ℕ) × Open a c'
          × Ready a c'
          × ((let r : Machine = elim o [
            | some c ↦ take_trap (bit_or 0x8000_0000 c) 0 a
            | none ↦ a
          ] in
                r)
              ≡ take_trap (2 ^ 31 + c') 0 a)
    go none e = absurd ((interrupt_cause-none a).0 e c gate ready)
    go (some c') e =
        let h = interrupt_cause-Ready a c' e in
        (c', h.1, h.0, ap (λ (x : ℕ). take_trap x 0 a) (interrupt_code c' (ground arith)))

-- The machine behind the poll of the keyboard, and the word that a fetch is executed as.
abbrev pub polled : ℕ → Option ℕ → Machine → Machine
polled i typed m = if i % 100000 == 0 then record m { mem = poll_keyboard typed m.mem } else m

abbrev pub is_compressed : ℕ → Bool
is_compressed raw = not (bit_and raw 3 == 3)

abbrev pub expanded : ℕ → ℕ
expanded raw = if is_compressed raw then decompress (bit_and raw 0xffff) else raw

-- A fetch that succeeds, of an instruction that is executed.
pub record Executes (i : ℕ) (typed : Option ℕ) (m : Machine) (raw : ℕ) (m1 m2 : Machine)
    : Type 0 where
  pub running : m.shutdown_requested ≡ false
  pub fetch : read32 (polled i typed m).pc true (polled i typed m) ≡ ok raw m1
  pub not_the_end : ((expanded raw == 0) && (m1.pc == 0)) ≡ false
  pub executed :
      execute
        (expanded raw)
        (record m1 { next_pc = u32 (m1.pc + (if is_compressed raw then 2 else 4)) })
      ≡ ok true m2

not_taken {ℓ} : {A : Type ℓ} (b : Bool) (x y : A) → b ≡ false → (if b then x else y) ≡ y
not_taken b x y e = rw e refl

run_instruction-Executes :
    (i : ℕ) (typed : Option ℕ) (m : Machine) (raw : ℕ) (m1 m2 : Machine)
    → Executes i typed m raw m1 m2
    → run_instruction raw m1 ≡ next (after_instruction m2)
unfolding run_instruction
run_instruction-Executes i typed m raw m1 m2 h =
    not_taken ((expanded raw == 0) && (m1.pc == 0)) _ _ h.not_the_end
    ∙ ap
        (λ (o : Outcome Bool).
          let r : Round = elim o [
            | ok true m ↦ next (after_instruction m)
            | ok false m ↦ next (take_trap Causes.illegal_instruction raw m)
            | raise e m ↦ handle e m
          ] in
          r)
        h.executed

round-Executes :
    (i : ℕ) (typed : Option ℕ) (m : Machine) (raw : ℕ) (m1 m2 : Machine)
    → Executes i typed m raw m1 m2
    → round i typed m ≡ next (after_instruction m2)
unfolding round
round-Executes i typed m raw m1 m2 h =
    not_taken (m.shutdown_requested) _ _ h.running
    ∙ ap
        (λ (o : Outcome ℕ).
          let r : Round = elim o [ ok raw m ↦ run_instruction raw m | raise e m ↦ handle e m ] in r)
        h.fetch
    ∙ run_instruction-Executes i typed m raw m1 m2 h

-- If an instruction is executed and some interrupt is pending and enabled behind it, with its
-- privilege open by the mode and MIE or SIE, the round goes on in the handler of such an
-- interrupt: the program counter of the next instruction is saved, and the mode and the enable are
-- stacked.
pub round-Ready :
    (i : ℕ) (typed : Option ℕ) (m : Machine) (raw : ℕ) (m1 m2 : Machine) (c : ℕ)
    → Executes i typed m raw m1 m2
    → (advance m2).privilege_mode ≢ reserved
    → Open (advance m2) c
    → Ready (advance m2) c
    → (c' : ℕ) × (m' : Machine) × Open (advance m2) c'
      × Ready (advance m2) c'
      × (round i typed m ≡ next m')
      × Entered (2 ^ 31 + c') (advance m2) m'
round-Ready i typed m raw m1 m2 c h legal gate ready =
    let t = after_instruction-Ready m2 c gate ready in
    (
      t.0,
      take_trap (2 ^ 31 + t.0) 0 (advance m2),
      t.1,
      t.2,
      round-Executes i typed m raw m1 m2 h ∙ ap (λ (x : Machine). next x) t.3,
      take_trap_entry (2 ^ 31 + t.0) 0 (advance m2) legal,
    )
