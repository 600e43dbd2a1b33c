-- ===== src/Invariant/System.antt =====
-- The system instructions keep an invariant.
use riscv_sym.Invariant.Interface.{Invariant}
use riscv_sym.Base.{ℕ, ◌^◌, ◌<◌, ◌==◌, arith, ◌&&◌, ltb, ne_zero, bit_and, bit_or, not32}
use riscv_sym.State.{PrivilegeMode, mode_code, pure}
use riscv_sym.Csr.Address
use riscv_sym.Cpu.{csr_read}
use riscv_sym.Cpu.Causes
use riscv_sym.Instruction.Decode.{bits}
use riscv_sym.Instruction.System
use riscv_sym.Instruction.System.{
  execute_csr, execute_ecall, execute_ebreak, execute_mret, execute_sret, execute_sfence_vma,
  execute_wfi, system_arguments, ecall_cause,
}
use riscv_sym.Base.Bits.Laws.{bit_and-lt, bit_or-lt}
use riscv_sym.Range.Defs.{either}
use riscv_sym.Range.Fields.{system_fields}
use riscv_sym.Invariant.Safe.{
  Word, Any, Safe, done, Keeps, and_then-Keeps, if-Keeps, get_register-Keeps,
}
use riscv_sym.Invariant.Traps.{
  return_from_trap-Holds, trap-Keeps, csr_write_value-Keeps, csr_update_value-Keeps,
}
use riscv_sym.Invariant.Semihosting.{is_semihosting_trap-Keeps, handle_semihosting_trap-Keeps}

module _ ⦃inv : Invariant⦄ where
  -- The immediate of CSRRWI and the like.
  operand : (i : ℕ) → Keeps Word (pure ((system_arguments i).rs1))
  unfolding system_arguments
  operand i m h = done (λ t. omega arith) h

  csr-Keeps : (i : ℕ) → Word i → Keeps Any (execute_csr i)
  unfolding execute_csr System.execute_csrrw System.execute_csrrs System.execute_csrrc
      System.execute_csrrwi System.execute_csrrsi System.execute_csrrci
  csr-Keeps i hi =
      let args = system_arguments i in
      let f = bits i 12 14 in
      let (h1, hd) = system_fields i in
      if-Keeps (f == 1) _ _ (csr_write_value-Keeps args i hd hi _ (get_register-Keeps args.rs1 h1))
        (if-Keeps (f == 2) _ _
          (csr_update_value-Keeps args i hd hi _ (λ x y. bit_or x y) (bit_or-lt 32)
            (get_register-Keeps args.rs1 h1))
          (if-Keeps (f == 3) _ _
            (csr_update_value-Keeps args i hd hi _ (λ x y. bit_and x (not32 y))
              (λ x y hx hy. bit_and-lt 32 x _ hx) (get_register-Keeps args.rs1 h1))
            (if-Keeps (f == 5) _ _ (csr_write_value-Keeps args i hd hi (pure args.rs1) (operand i))
              (if-Keeps (f == 6) _ _
                (csr_update_value-Keeps args i hd hi (pure args.rs1) (λ x y. bit_or x y)
                  (bit_or-lt 32) (operand i))
                (if-Keeps (f == 7) _ _
                  (csr_update_value-Keeps args i hd hi (pure args.rs1) (λ x y. bit_and x (not32 y))
                    (λ x y hx hy. bit_and-lt 32 x _ hx) (operand i))
                  (λ m h. done tt h))))))

  ebreak-Keeps : Keeps Any execute_ebreak
  unfolding execute_ebreak
  ebreak-Keeps m h = and_then-Keeps _ (is_semihosting_trap-Keeps m.pc m h) (λ b hb.
      if-Keeps b _ _ handle_semihosting_trap-Keeps
        (trap-Keeps Causes.breakpoint 0 (λ t. omega arith) (λ t. omega arith)))

  ecall_cause-lt : (p : PrivilegeMode) → ecall_cause p < 2 ^ 32
  unfolding ecall_cause
  ecall_cause-lt PrivilegeMode.user = omega arith
  ecall_cause-lt PrivilegeMode.supervisor = omega arith
  ecall_cause-lt PrivilegeMode.reserved = omega arith
  ecall_cause-lt PrivilegeMode.machine = omega arith

  ecall-Keeps : Keeps Any execute_ecall
  unfolding execute_ecall
  ecall-Keeps m h = trap-Keeps _ 0 (λ t. ecall_cause-lt m.privilege_mode) (λ t. omega arith) m h

  illegal-Keeps : (i : ℕ) → Word i → Keeps Any (System.trap Causes.illegal_instruction i)
  illegal-Keeps i hi = trap-Keeps Causes.illegal_instruction i (λ t. omega arith) hi

  mret-Keeps : (i : ℕ) → Word i → Keeps Any (execute_mret i)
  unfolding execute_mret
  mret-Keeps i hi m h =
      either (Safe Any) (ltb (mode_code m.privilege_mode) 3) _ _ (illegal-Keeps i hi m h)
        (done tt (return_from_trap-Holds PrivilegeMode.machine m h))

  sret-Keeps : (i : ℕ) → Word i → Keeps Any (execute_sret i)
  unfolding execute_sret
  sret-Keeps i hi m h =
      either (Safe Any) (mode_code m.privilege_mode == 0) _ _ (illegal-Keeps i hi m h) (
        either (Safe Any)
          (mode_code m.privilege_mode == 1
            && ne_zero (bit_and (csr_read m Address.mstatus) (2 ^ 22)))
          _ _ (illegal-Keeps i hi m h)
          (done tt (return_from_trap-Holds PrivilegeMode.supervisor m h)))

  sfence_vma-Keeps : (i : ℕ) → Word i → Keeps Any (execute_sfence_vma i)
  unfolding execute_sfence_vma
  sfence_vma-Keeps i hi m h =
      either (Safe Any) (ltb (mode_code m.privilege_mode) 1) _ _ (illegal-Keeps i hi m h)
        (done tt h)

  pub system-Keeps : (i : ℕ) → Word i → Keeps Any (System.execute i)
  unfolding System.execute execute_wfi
  system-Keeps i hi =
      let f = bits i 20 31 in
      if-Keeps (bits i 12 14 == 0) _ _
        (if-Keeps (bits i 25 31 == 9) _ _ (sfence_vma-Keeps i hi) (
          if-Keeps (f == 0) _ _ ecall-Keeps (
            if-Keeps (f == 1) _ _ ebreak-Keeps (
              if-Keeps (f == 0x302) _ _ (mret-Keeps i hi) (
                if-Keeps (f == 0x102) _ _ (sret-Keeps i hi)
                  (if-Keeps (f == 0x105) _ _ (λ m h. done tt h) (csr-Keeps i hi)))))))
        (csr-Keeps i hi)
