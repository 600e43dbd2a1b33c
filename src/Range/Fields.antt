-- ===== src/Range/Fields.antt =====
-- core/instruction/*.cpp: the register numbers of an encoded instruction are below 32.
use riscv_sym.Base.{ℕ, ◌<◌, arith}
use riscv_sym.Instruction.Decode.{
  r_arguments, i_arguments, s_arguments, b_arguments, j_arguments, u_arguments,
}
use riscv_sym.Instruction.System.{system_arguments}

module _ (i : ℕ) where
  pub r_fields : ((r_arguments i).rs1 < 32) × ((r_arguments i).rs2 < 32) × ((r_arguments i).rd < 32)
  unfolding r_arguments
  r_fields = omega arith

  pub i_fields : ((i_arguments i).rs1 < 32) × ((i_arguments i).rd < 32)
  unfolding i_arguments
  i_fields = omega arith

  pub s_fields : ((s_arguments i).rs1 < 32) × ((s_arguments i).rs2 < 32)
  unfolding s_arguments
  s_fields = omega arith

  pub b_fields : ((b_arguments i).rs1 < 32) × ((b_arguments i).rs2 < 32)
  unfolding b_arguments
  b_fields = omega arith

  pub j_field : (j_arguments i).rd < 32
  unfolding j_arguments
  j_field = omega arith

  pub u_field : (u_arguments i).rd < 32
  unfolding u_arguments
  u_field = omega arith

  pub system_fields : ((system_arguments i).rs1 < 32) × ((system_arguments i).rd < 32)
  unfolding system_arguments
  system_fields = omega arith
