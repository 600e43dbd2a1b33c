-- ===== src/Instruction/System.antt =====
-- core/instruction/SystemInstruction.cpp: the CSR instructions, traps on purpose and returns.
use riscv_sym.Base.{
  ℕ, ◌^◌, bit_and, bit_or, ◌==◌, ltb, if◌then◌else◌, Bool, true, false, ne_zero, not, ◌&&◌, not32,
}
use riscv_sym.State.{
  Machine, PrivilegeMode, user, supervisor, machine, mode_code, M, pure, ◌>>=◌, ◌>>◌, when, gets,
  modify,
}
use riscv_sym.Cpu.{get_register, set_register, csr_read, csr_write, take_trap, return_from_trap}
use riscv_sym.Cpu.Causes
use riscv_sym.Csr
use riscv_sym.Csr.Address
use riscv_sym.Instruction.Description
use riscv_sym.Instruction.Decode.{bits, i_imm}
use riscv_sym.Instruction.Semihosting.{is_semihosting_trap, handle_semihosting_trap}
use riscv_sym.Memory.Physical.{set_satp}

-- `imm` is left out: no instruction reads it.
pub record SystemArguments : Type 0 where
  pub csr_addr : ℕ
  pub rs1 : ℕ
  pub rd : ℕ

unfoldable pub system_arguments : ℕ → SystemArguments
system_arguments i = record {
  csr_addr = bit_and (i_imm i) 0xfff;
  rs1 = bits i 15 19;
  rd = bits i 7 11;
}

-- `cpu.takeTrap(cause, value); return true;`.
abbrev pub trap : ℕ → ℕ → M Bool
trap cause value = do modify (take_trap cause value); pure true

-- `csr.write`, and what a write of `satp` does to the memory.
unfoldable pub write_csr : ℕ → ℕ → Machine → Machine
write_csr csr_addr value m =
    let m' = csr_write csr_addr value m in
    if csr_addr == Address.satp
    then record m' { mem = set_satp (csr_read m' Address.satp) m'.mem }
    else m'

module _ (args : SystemArguments) (encoded_instruction : ℕ) where
  -- CSRRW and CSRRWI: the new value is `rs1`'s or `rs1` itself.
  unfoldable pub csr_write_value : M ℕ → M Bool
  csr_write_value new_value m =
      if Csr.can_access args.csr_addr m.privilege_mode true
      then (do
        value ← new_value
        when (not (args.rd == 0))
            (do old_value ← gets (λ m. csr_read m args.csr_addr); set_register args.rd old_value)
        modify (write_csr args.csr_addr value)
        pure true)
          m
      else trap Causes.illegal_instruction encoded_instruction m

  unfoldable pub execute_csrrw : M Bool
  unfolding csr_write_value
  execute_csrrw = csr_write_value (get_register args.rs1)

  unfoldable pub execute_csrrwi : M Bool
  unfolding csr_write_value
  execute_csrrwi = csr_write_value (pure args.rs1)

  -- CSRRS, CSRRC and their immediate forms: `rs1` 0 does not write.
  unfoldable pub csr_update_value : M ℕ → (ℕ → ℕ → ℕ) → M Bool
  csr_update_value operand combine m =
      let is_write = not (args.rs1 == 0) in
      if Csr.can_access args.csr_addr m.privilege_mode is_write
      then (do
        old_val ← gets (λ m. csr_read m args.csr_addr)
        value ← operand
        when is_write (modify (write_csr args.csr_addr (combine old_val value)))
        set_register args.rd old_val
        pure true)
          m
      else trap Causes.illegal_instruction encoded_instruction m

  unfoldable pub execute_csrrs : M Bool
  unfolding csr_update_value
  execute_csrrs = csr_update_value (get_register args.rs1) (λ old_val value. bit_or old_val value)

  unfoldable pub execute_csrrc : M Bool
  unfolding csr_update_value
  execute_csrrc =
      csr_update_value (get_register args.rs1) (λ old_val value. bit_and old_val (not32 value))

  unfoldable pub execute_csrrsi : M Bool
  unfolding csr_update_value
  execute_csrrsi = csr_update_value (pure args.rs1) (λ old_val value. bit_or old_val value)

  unfoldable pub execute_csrrci : M Bool
  unfolding csr_update_value
  execute_csrrci = csr_update_value (pure args.rs1) (λ old_val value. bit_and old_val (not32 value))

unfoldable pub ecall_cause : PrivilegeMode → ℕ
ecall_cause user = Causes.environment_call_from_u_mode
ecall_cause supervisor = Causes.environment_call_from_s_mode
ecall_cause _ = Causes.environment_call_from_m_mode

unfoldable pub execute_ecall : M Bool
execute_ecall m = trap (ecall_cause m.privilege_mode) 0 m

unfoldable pub execute_ebreak : M Bool
execute_ebreak = do
  pc ← gets (λ m. m.pc)
  semihosting ← is_semihosting_trap pc
  if semihosting then handle_semihosting_trap else trap Causes.breakpoint 0

unfoldable pub execute_mret : ℕ → M Bool
execute_mret encoded_instruction m =
    if ltb (mode_code m.privilege_mode) 3
    then trap Causes.illegal_instruction encoded_instruction m
    else (do modify (return_from_trap machine); pure true) m

unfoldable pub execute_sret : ℕ → M Bool
execute_sret encoded_instruction m =
    let tsr = ne_zero (bit_and (csr_read m Address.mstatus) (2 ^ 22)) in
    if mode_code m.privilege_mode == 0
    then trap Causes.illegal_instruction encoded_instruction m
    else if mode_code m.privilege_mode == 1 && tsr
    then trap Causes.illegal_instruction encoded_instruction m
    else (do modify (return_from_trap supervisor); pure true) m

unfoldable pub execute_sfence_vma : ℕ → M Bool
execute_sfence_vma encoded_instruction m =
    if ltb (mode_code m.privilege_mode) 1
    then trap Causes.illegal_instruction encoded_instruction m
    else pure true m

unfoldable pub execute_wfi : M Bool
execute_wfi = pure true

-- The `switch` on funct3 behind the environment instructions.
unfoldable pub execute_csr : ℕ → M Bool
execute_csr encoded_instruction =
    let args = system_arguments encoded_instruction in
    let funct3 = bits encoded_instruction 12 14 in
    if funct3 == Description.csrrw
    then execute_csrrw args encoded_instruction
    else if funct3 == Description.csrrs
    then execute_csrrs args encoded_instruction
    else if funct3 == Description.csrrc
    then execute_csrrc args encoded_instruction
    else if funct3 == Description.csrrwi
    then execute_csrrwi args encoded_instruction
    else if funct3 == Description.csrrsi
    then execute_csrrsi args encoded_instruction
    else if funct3 == Description.csrrci
    then execute_csrrci args encoded_instruction
    else pure false

unfoldable pub execute : ℕ → M Bool
execute encoded_instruction =
    let funct12 = bits encoded_instruction 20 31 in
    if bits encoded_instruction 12 14 == 0
    then (if bits encoded_instruction 25 31 == Description.sfence_vma
        then execute_sfence_vma encoded_instruction
        else if funct12 == Description.ecall
        then execute_ecall
        else if funct12 == Description.ebreak
        then execute_ebreak
        else if funct12 == Description.mret
        then execute_mret encoded_instruction
        else if funct12 == Description.sret
        then execute_sret encoded_instruction
        else if funct12 == Description.wfi
        then execute_wfi
        else execute_csr encoded_instruction)
    else execute_csr encoded_instruction
