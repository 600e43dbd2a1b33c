-- ===== src/Invariant/Traps.antt =====
-- Traps, returns and the CSR instructions keep an invariant.
use riscv_sym.Invariant.Interface.{Invariant}
use riscv_sym.Base.{ℕ, ◌<◌, ◌==◌, true, Bool-cases, inl, inr, arith, not}
use riscv_sym.State.{Machine, Csrs, M, modify, pure, PrivilegeMode}
use riscv_sym.Csr
use riscv_sym.Csr.Address
use riscv_sym.Csr.Laws.{IsValid, write-IsValid}
use riscv_sym.Cpu.{
  set_register, take_trap, cancel_reservation, trap_to_supervisor, trap_to_machine, enter_handler,
  return_from_trap, return_from_supervisor, return_from_machine, csr_read, csr_write,
}
use riscv_sym.Instruction.System
use riscv_sym.Instruction.System.{SystemArguments, write_csr, csr_write_value, csr_update_value}
use riscv_sym.Range.Defs.{either}
use riscv_sym.Range.Ram.{set_satp-InRange}
use riscv_sym.Range.Traps.{take_trap-InRange, return_from_trap-InRange, read-lt, csrs-InRange}
use riscv_sym.Range.Words.{Words}
use riscv_sym.Invariant.Safe.{
  Holds, Word, Any, done, Keeps, memory-Holds, and_then-Keeps, if-Keeps, set_register-Keeps,
}

module _ ⦃inv : Invariant⦄ where
  pub take_trap-Holds :
      (cause value : ℕ) (m : Machine)
      → Word cause
      → Word value
      → Holds m
      → Holds (take_trap cause value m)
  unfolding take_trap cancel_reservation trap_to_supervisor trap_to_machine enter_handler
  take_trap-Holds cause value m hc hv (zero, of, range) = (
    ground arith,
    inv.take_trap-Of cause value m of,
    λ t. take_trap-InRange cause value (hc t) (hv t) m (range t),
  )

  pub return_from_trap-Holds :
      (p : PrivilegeMode) (m : Machine) → Holds m → Holds (return_from_trap p m)
  unfolding return_from_trap return_from_supervisor return_from_machine
  return_from_trap-Holds p m (zero, of, range) =
      (ground arith, inv.return_from_trap-Of p m of, λ t. return_from_trap-InRange p m (range t))

  -- The CSRs anew.
  pub csrs-Holds :
      (csrs : Csrs) (m : Machine)
      → inv.Of m.privilege_mode csrs
      → (inv.Typed → IsValid csrs)
      → Holds m
      → Holds (record m { csrs = csrs })
  csrs-Holds csrs m of valid (zero, _, range) =
      (zero, of, λ t. csrs-InRange m (range t) csrs (valid t))

  write_csr-Holds : (a v : ℕ) (m : Machine) → Word v → Holds m → Holds (write_csr a v m)
  unfolding write_csr
  write_csr-Holds a v m hv h =
      let written =
        csrs-Holds _ m (inv.write-Of m.privilege_mode m.csrs a v (h.1))
          (λ t. write-IsValid m.csrs ((h.2 t).csrs) a v (hv t)) h in
      either Holds (a == Address.satp) _ (csr_write a v m)
        (memory-Holds _ (csr_write a v m)
          (λ t. let g = written.2 t in set_satp-InRange _ _ (read-lt _ _ Address.satp g.csrs) g.mem)
          written)
        written

  pub trap-Keeps : (cause value : ℕ) → Word cause → Word value → Keeps Any (System.trap cause value)
  trap-Keeps cause value hc hv m h = done tt (take_trap-Holds cause value m hc hv h)

  csr_read-Word : (a : ℕ) (m : Machine) → Holds m → Word (csr_read m a)
  csr_read-Word a m h t = read-lt _ _ a ((h.2 t).csrs)

  module _ (args : SystemArguments) (i : ℕ) (hd : args.rd < 32) (hi : Word i) where
    pub csr_write_value-Keeps : (c : M ℕ) → Keeps Word c → Keeps Any (csr_write_value args i c)
    unfolding csr_write_value
    csr_write_value-Keeps c k m h =
        elim (Bool-cases (Csr.can_access args.csr_addr m.privilege_mode true)) [
          | inl e ↦ rw e (
              and_then-Keeps _ (k m h) (λ v hv m h.
                and_then-Keeps _
                  (if-Keeps (not (args.rd == 0))
                    (λ m. set_register args.rd (csr_read m args.csr_addr) m) (pure tt)
                    (λ m h.
                      set_register-Keeps args.rd (csr_read m args.csr_addr) hd
                        (csr_read-Word args.csr_addr m h) m h)
                    (λ m h. done tt h) m h)
                  (λ u hu m h. done tt (write_csr-Holds args.csr_addr v m hv h))))
          | inr e ↦ rw e (trap-Keeps _ _ (λ t. omega arith) hi m h)
        ]

    pub csr_update_value-Keeps :
        (c : M ℕ) (f : ℕ → ℕ → ℕ) → Words f → Keeps Word c → Keeps Any (csr_update_value args i c f)
    unfolding csr_update_value
    csr_update_value-Keeps c f hf k m h =
        let w = not (args.rs1 == 0) in
        elim (Bool-cases (Csr.can_access args.csr_addr m.privilege_mode w)) [
          | inl e ↦ rw e (
              let old = csr_read m args.csr_addr in
              let ho : Word old = csr_read-Word args.csr_addr m h in
              and_then-Keeps _ (k m h) (λ v hv m' h.
                and_then-Keeps _
                  (if-Keeps {Q = Any} w (modify (write_csr args.csr_addr (f old v))) (pure tt)
                    (λ m h.
                      done tt
                        (write_csr-Holds args.csr_addr (f old v) m (λ t. hf old v (ho t) (hv t)) h))
                    (λ m h. done tt h) m' h)
                  (λ u hu m h.
                    and_then-Keeps _ (set_register-Keeps args.rd old hd ho m h)
                      (λ u hu m h. done tt h))))
          | inr e ↦ rw e (trap-Keeps _ _ (λ t. omega arith) hi m h)
        ]
