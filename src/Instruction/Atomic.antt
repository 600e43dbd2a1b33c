-- ===== src/Instruction/Atomic.antt =====
-- core/instruction/RTypeInstruction.cpp, `namespace AtomicInstruction`: RV32A.
use riscv_sym.Base.{
  ℕ, ◌+◌, bit_and, bit_or, bit_xor, ◌==◌, ltb, if◌then◌else◌, Bool, true, false, ◌>>>◌, u32, not,
}
use riscv_sym.State.{M, pure, ◌>>=◌, ◌>>◌, when, modify, load}
use riscv_sym.Cpu.{
  get_register, set_register, notify_store, make_reservation, check_and_clear_reservation,
}
use riscv_sym.Base.Int.{int32, lt_ℤ}
use riscv_sym.Instruction.Description
use riscv_sym.Instruction.Decode.{bits, description, RArguments, r_arguments}
use riscv_sym.Memory.Access.{read32, write32}
use riscv_sym.Memory.Translate.{translate_address}

unfoldable pub execute_lr : RArguments → M Bool
execute_lr args = do
  virtual_address ← get_register args.rs1
  value ← read32 virtual_address false
  physical_address ← translate_address virtual_address load
  modify (make_reservation physical_address)
  when (not (args.rd == 0)) (set_register args.rd value)
  pure true

-- `checkAndClearReservation` as a command.
abbrev check_reservation : ℕ → M Bool
check_reservation physical_address m =
    let (valid, m') = check_and_clear_reservation physical_address m in pure valid m'

-- The branch of a valid reservation.
unfoldable pub store_conditional : RArguments → ℕ → M (Unit {0})
store_conditional args virtual_address = do
  value_to_write ← get_register args.rs2
  write32 virtual_address value_to_write
  when (not (args.rd == 0)) (set_register args.rd 0)

unfoldable pub execute_sc : RArguments → M Bool
execute_sc args = do
  virtual_address ← get_register args.rs1
  physical_address ← translate_address virtual_address load
  valid ← check_reservation physical_address
  (if valid
      then store_conditional args virtual_address
      else when (not (args.rd == 0)) (set_register args.rd 1))
  pure true

-- `AMO::execute`, with `performAmoOperation` as an argument.
unfoldable pub execute_amo : (ℕ → ℕ → ℕ) → RArguments → M Bool
execute_amo perform_amo_operation args = do
  memory_address ← get_register args.rs1
  value_from_rs2 ← get_register args.rs2
  old_value ← read32 memory_address false
  let new_value = perform_amo_operation old_value value_from_rs2
  modify (notify_store memory_address 4)
  write32 memory_address new_value
  when (not (args.rd == 0)) (set_register args.rd old_value)
  pure true

unfoldable pub swap_function : ℕ → ℕ → ℕ
swap_function old_val rs2_val = rs2_val

unfoldable pub add_function : ℕ → ℕ → ℕ
add_function old_val rs2_val = u32 (old_val + rs2_val)

unfoldable pub xor_function : ℕ → ℕ → ℕ
xor_function old_val rs2_val = bit_xor old_val rs2_val

unfoldable pub and_function : ℕ → ℕ → ℕ
and_function old_val rs2_val = bit_and old_val rs2_val

unfoldable pub or_function : ℕ → ℕ → ℕ
or_function old_val rs2_val = bit_or old_val rs2_val

unfoldable pub min_function : ℕ → ℕ → ℕ
min_function old_val rs2_val = if lt_ℤ (int32 rs2_val) (int32 old_val) then rs2_val else old_val

unfoldable pub max_function : ℕ → ℕ → ℕ
max_function old_val rs2_val = if lt_ℤ (int32 old_val) (int32 rs2_val) then rs2_val else old_val

unfoldable pub minu_function : ℕ → ℕ → ℕ
minu_function old_val rs2_val = if ltb rs2_val old_val then rs2_val else old_val

unfoldable pub maxu_function : ℕ → ℕ → ℕ
maxu_function old_val rs2_val = if ltb old_val rs2_val then rs2_val else old_val

unfoldable pub execute : ℕ → M Bool
execute encoded_instruction =
    let args = r_arguments encoded_instruction in
    let amo_op = bits encoded_instruction 25 31 >>> 2 in
    let d = description (bits encoded_instruction 12 14) amo_op in
    if d == Description.lr
    then execute_lr args
    else if d == Description.sc
    then execute_sc args
    else if d == Description.amo_add
    then execute_amo add_function args
    else if d == Description.amo_swap
    then execute_amo swap_function args
    else if d == Description.amo_xor
    then execute_amo xor_function args
    else if d == Description.amo_or
    then execute_amo or_function args
    else if d == Description.amo_and
    then execute_amo and_function args
    else if d == Description.amo_min
    then execute_amo min_function args
    else if d == Description.amo_max
    then execute_amo max_function args
    else if d == Description.amo_minu
    then execute_amo minu_function args
    else if d == Description.amo_maxu
    then execute_amo maxu_function args
    else pure false
