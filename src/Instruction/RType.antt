-- ===== src/Instruction/RType.antt =====
-- core/instruction/RTypeInstruction.cpp, `namespace Instruction`: register arithmetic and RV32M.
pub mod Divide
pub mod Shift
pub mod Multiply
use riscv_sym.Base.{
  ℕ, zero, suc, ◌+◌, ◌/◌, ◌%◌, ◌^◌, ◌*◌, ◌-◌, ◌≤◌, ◌<◌, ◌≡◌, ◌≢◌, bit_and, bit_or, bit_xor, ◌==◌,
  ltb, leb, if◌then◌else◌, Bool, true, false, Option, none, some, ◌>>>◌, ◌<<<◌, List, [], ◌∷◌, u8,
  u16, u32, u64, ne_zero, not, ◌&&◌, ◌||◌, arith, refl, ap, ◌∙◌, ◌↔◌, ◌⊎◌, inl, inr, Bool-cases,
  max, min, not32, sub32, sym, fun_ext,
}
use riscv_sym.State.{
  Machine, M, pure, throw, undefined_shift, ◌>>=◌, ◌>>◌, when, gets, modify, load, and_then,
}
use riscv_sym.Cpu.{
  get_register, set_register, notify_store, make_reservation, check_and_clear_reservation,
  set_next_pc,
}
use riscv_sym.Base.Int.{ℤ, int32, to_word, ◌*ℤ◌, ◌/ℤ◌, ◌%ℤ◌, shift_right, lt_ℤ, pos}
use riscv_sym.Instruction.Description
use riscv_sym.Instruction.Decode.{
  bits, description, RArguments, r_arguments, IArguments, i_arguments, SArguments, s_arguments,
  b_arguments, JArguments, j_arguments, u_arguments,
}
use riscv_sym.Memory.Access.{read8, read16, read32, write8, write16, write32}
use riscv_sym.Memory.Translate.{translate_address}

-- `x << k` and `x >> k` of 32-bit operands; C++ leaves a count of 32 or more undefined.
unfoldable pub shift_by : ℕ → ℕ → M ℕ
shift_by result count m = if ltb count 32 then pure result m else throw undefined_shift m

-- The upper half of the product of two signed numbers.
unfoldable pub mulh : ℕ → ℕ → ℕ
mulh rs1_value rs2_value = u32 (to_word 64 (int32 rs1_value *ℤ int32 rs2_value) >>> 32)

unfoldable pub mulhsu : ℕ → ℕ → ℕ
mulhsu rs1_value rs2_value = u32 (to_word 64 (int32 rs1_value *ℤ pos rs2_value) >>> 32)

-- Division by 0 and the overflow of -2 ^ 31 / -1 have results of their own.
unfoldable pub div : ℕ → ℕ → ℕ
div rs1_value rs2_value =
    if rs2_value == 0
    then 0xffff_ffff
    else if rs1_value == 2 ^ 31 && rs2_value == 0xffff_ffff
    then rs1_value
    else to_word 32 (int32 rs1_value /ℤ int32 rs2_value)

unfoldable pub divu : ℕ → ℕ → ℕ
divu rs1_value rs2_value = if rs2_value == 0 then 0xffff_ffff else rs1_value / rs2_value

unfoldable pub rem : ℕ → ℕ → ℕ
rem rs1_value rs2_value =
    if rs2_value == 0
    then rs1_value
    else if rs1_value == 2 ^ 31 && rs2_value == 0xffff_ffff
    then 0
    else to_word 32 (int32 rs1_value %ℤ int32 rs2_value)

unfoldable pub remu : ℕ → ℕ → ℕ
remu rs1_value rs2_value = if rs2_value == 0 then rs1_value else rs1_value % rs2_value

module _ (args : RArguments) where
  unfoldable pub execute_add : M Bool
  execute_add = do
    rs1_value ← get_register args.rs1
    rs2_value ← get_register args.rs2
    set_register args.rd (u32 (rs2_value + rs1_value))
    pure true

  unfoldable pub execute_sub : M Bool
  execute_sub = do
    rs1_value ← get_register args.rs1
    rs2_value ← get_register args.rs2
    set_register args.rd (sub32 rs1_value rs2_value)
    pure true

  unfoldable pub execute_sll : M Bool
  execute_sll = do
    rs1_value ← get_register args.rs1
    rs2_value ← get_register args.rs2
    let shift_value = bits rs2_value 0 5
    result ← shift_by (u32 (rs1_value <<< shift_value)) shift_value
    set_register args.rd result
    pure true

  unfoldable pub execute_slt : M Bool
  execute_slt = do
    rs1_value ← get_register args.rs1
    rs2_value ← get_register args.rs2
    set_register args.rd (if lt_ℤ (int32 rs1_value) (int32 rs2_value) then 1 else 0)
    pure true

  unfoldable pub execute_sltu : M Bool
  execute_sltu = do
    rs1_value ← get_register args.rs1
    rs2_value ← get_register args.rs2
    set_register args.rd (if ltb rs1_value rs2_value then 1 else 0)
    pure true

  unfoldable pub execute_xor : M Bool
  execute_xor = do
    rs1_value ← get_register args.rs1
    rs2_value ← get_register args.rs2
    set_register args.rd (bit_xor rs1_value rs2_value)
    pure true

  unfoldable pub execute_srl : M Bool
  execute_srl = do
    rs1_value ← get_register args.rs1
    rs2_value ← get_register args.rs2
    let shift_value = bits rs2_value 0 5
    result ← shift_by (rs1_value >>> shift_value) shift_value
    set_register args.rd result
    pure true

  unfoldable pub execute_sra : M Bool
  execute_sra = do
    rs1_value ← get_register args.rs1
    rs2_value ← get_register args.rs2
    let shift_value = bits rs2_value 0 5
    result ← shift_by (to_word 32 (shift_right (int32 rs1_value) shift_value)) shift_value
    set_register args.rd result
    pure true

  unfoldable pub execute_or : M Bool
  execute_or = do
    rs1_value ← get_register args.rs1
    rs2_value ← get_register args.rs2
    set_register args.rd (bit_or rs1_value rs2_value)
    pure true

  unfoldable pub execute_and : M Bool
  execute_and = do
    rs1_value ← get_register args.rs1
    rs2_value ← get_register args.rs2
    set_register args.rd (bit_and rs1_value rs2_value)
    pure true

  unfoldable pub execute_mul : M Bool
  execute_mul = do
    rs1_value ← get_register args.rs1
    rs2_value ← get_register args.rs2
    set_register args.rd (u32 (rs1_value * rs2_value))
    pure true

  unfoldable pub execute_mulh : M Bool
  execute_mulh = do
    rs1_value ← get_register args.rs1
    rs2_value ← get_register args.rs2
    set_register args.rd (mulh rs1_value rs2_value)
    pure true

  unfoldable pub execute_mulhsu : M Bool
  execute_mulhsu = do
    rs1_value ← get_register args.rs1
    rs2_value ← get_register args.rs2
    set_register args.rd (mulhsu rs1_value rs2_value)
    pure true

  unfoldable pub execute_mulhu : M Bool
  execute_mulhu = do
    rs1_value ← get_register args.rs1
    rs2_value ← get_register args.rs2
    set_register args.rd (u32 (u64 (rs1_value * rs2_value) >>> 32))
    pure true

  unfoldable pub execute_div : M Bool
  execute_div = do
    rs1_value ← get_register args.rs1
    rs2_value ← get_register args.rs2
    set_register args.rd (div rs1_value rs2_value)
    pure true

  unfoldable pub execute_divu : M Bool
  execute_divu = do
    rs1_value ← get_register args.rs1
    rs2_value ← get_register args.rs2
    set_register args.rd (divu rs1_value rs2_value)
    pure true

  unfoldable pub execute_rem : M Bool
  execute_rem = do
    rs1_value ← get_register args.rs1
    rs2_value ← get_register args.rs2
    set_register args.rd (rem rs1_value rs2_value)
    pure true

  unfoldable pub execute_remu : M Bool
  execute_remu = do
    rs1_value ← get_register args.rs1
    rs2_value ← get_register args.rs2
    set_register args.rd (remu rs1_value rs2_value)
    pure true

unfoldable pub execute : ℕ → M Bool
execute encoded_instruction =
    let args = r_arguments encoded_instruction in
    let d = description (bits encoded_instruction 12 14) (bits encoded_instruction 25 31) in
    if d == Description.add
    then execute_add args
    else if d == Description.sub
    then execute_sub args
    else if d == Description.sll
    then execute_sll args
    else if d == Description.slt
    then execute_slt args
    else if d == Description.sltu
    then execute_sltu args
    else if d == Description.xor
    then execute_xor args
    else if d == Description.srl
    then execute_srl args
    else if d == Description.sra
    then execute_sra args
    else if d == Description.or
    then execute_or args
    else if d == Description.and
    then execute_and args
    else if d == Description.mul
    then execute_mul args
    else if d == Description.mulh
    then execute_mulh args
    else if d == Description.mulhsu
    then execute_mulhsu args
    else if d == Description.mulhu
    then execute_mulhu args
    else if d == Description.div
    then execute_div args
    else if d == Description.divu
    then execute_divu args
    else if d == Description.rem
    then execute_rem args
    else if d == Description.remu
    then execute_remu args
    else pure false
