-- ===== src/Invariant/Registers.antt =====
-- The instructions on registers, the branches and the jumps keep an invariant.
use riscv_sym.Invariant.Interface.{Invariant}
use riscv_sym.Base.{ℕ, ◌+◌, ◌^◌, ◌<◌, ◌==◌, Bool, true, false, not, arith, ltb, u32}
use riscv_sym.State.{pure, modify, when, ◌>>=◌, ◌>>◌}
use riscv_sym.Cpu.{get_register, set_register}
use riscv_sym.Instruction.Decode.{bits, description}
use riscv_sym.Instruction.RType
use riscv_sym.Instruction.RType.{shift_by}
use riscv_sym.Instruction.IType
use riscv_sym.Instruction.BType
use riscv_sym.Instruction.JType
use riscv_sym.Instruction.UType
use riscv_sym.Base.Bits.Laws.{bit_and-lt, bit_or-lt, bit_xor-lt}
use riscv_sym.Instruction.Decode.{JArguments, i_arguments, j_arguments, u_arguments}
use riscv_sym.Range.Defs.{either}
use riscv_sym.Range.Words.{
  Words, to_word-lt, flag-lt, shifted-lt, div-Words, rem-Words, divu-Words, remu-Words, mulh-Words,
  mulhsu-Words, i_imm-lt,
}
use riscv_sym.Range.Fields.{r_fields, i_fields, b_fields, j_field, u_field}
use riscv_sym.Invariant.Safe.{
  Word, Any, Safe, done, thrown, Keeps, jump-Holds, and_then-Keeps, if-Keeps, get_register-Keeps,
  set_register-Keeps,
}
use riscv_sym.Invariant.Commands.{u32-Word}

module _ ⦃inv : Invariant⦄ where
  -- One operand, and two.
  unary-Keeps :
      (rs1 rd : ℕ) (f : ℕ → ℕ)
      → (rs1 < 32) × (rd < 32)
      → ((x : ℕ) → x < 2 ^ 32 → f x < 2 ^ 32)
      → Keeps Any (do x ← get_register rs1; set_register rd (f x); pure true)
  unary-Keeps rs1 rd f (h1, hd) hf m h =
      and_then-Keeps _ (get_register-Keeps rs1 h1 m h) (λ x hx m h.
        and_then-Keeps _ (set_register-Keeps rd (f x) hd (λ t. hf x (hx t)) m h)
          (λ u hu m h. done tt h))

  binary-Keeps :
      (rs1 rs2 rd : ℕ) (f : ℕ → ℕ → ℕ)
      → (rs1 < 32) × (rs2 < 32) × (rd < 32)
      → Words f
      → Keeps Any
          (do x ← get_register rs1; y ← get_register rs2; set_register rd (f x y); pure true)
  binary-Keeps rs1 rs2 rd f (h1, h2, hd) hf m h =
      and_then-Keeps _ (get_register-Keeps rs1 h1 m h) (λ x hx m h.
        and_then-Keeps _ (get_register-Keeps rs2 h2 m h) (λ y hy m h.
          and_then-Keeps _ (set_register-Keeps rd (f x y) hd (λ t. hf x y (hx t) (hy t)) m h)
            (λ u hu m h. done tt h)))

  shift_by-Keeps : (v count : ℕ) → Word v → Keeps Word (shift_by v count)
  unfolding shift_by
  shift_by-Keeps v count hv m h = either (Safe Word) (ltb count 32) _ _ (done hv h) (thrown tt h)

  shift-Keeps :
      (rs1 rs2 rd : ℕ) (f : ℕ → ℕ → ℕ) (count : ℕ → ℕ)
      → (rs1 < 32) × (rs2 < 32) × (rd < 32)
      → Words f
      → Keeps Any (do
        x ← get_register rs1
        y ← get_register rs2
        result ← shift_by (f x y) (count y)
        set_register rd result
        pure true)
  shift-Keeps rs1 rs2 rd f count (h1, h2, hd) hf m h =
      and_then-Keeps _ (get_register-Keeps rs1 h1 m h) (λ x hx m h.
        and_then-Keeps _ (get_register-Keeps rs2 h2 m h) (λ y hy m h.
          and_then-Keeps _ (shift_by-Keeps (f x y) (count y) (λ t. hf x y (hx t) (hy t)) m h)
            (λ r hr m h.
              and_then-Keeps _ (set_register-Keeps rd r hd hr m h) (λ u hu m h. done tt h))))

  branch-Keeps :
      (rs1 rs2 offset : ℕ) (b : ℕ → ℕ → Bool)
      → (rs1 < 32) × (rs2 < 32)
      → Keeps Any (do
        x ← get_register rs1
        y ← get_register rs2
        when (b x y) (modify (λ m. record m { next_pc = u32 (m.pc + offset) }))
        pure true)
  branch-Keeps rs1 rs2 offset b (h1, h2) m h =
      and_then-Keeps _ (get_register-Keeps rs1 h1 m h) (λ x hx m h.
        and_then-Keeps _ (get_register-Keeps rs2 h2 m h)
          (λ y hy m h. and_then-Keeps _ (taken (b x y) m h) (λ u hu m h. done tt h)))
    where
      taken :
          (b : Bool) → Keeps Any (when b (modify (λ m. record m { next_pc = u32 (m.pc + offset) })))
      taken true m h = done tt (jump-Holds m.pc _ m (λ t. (h.2 t).pc) (u32-Word _) h)
      taken false m h = done tt h

  pub register_arithmetic-Keeps : (i : ℕ) → Keeps Any (RType.execute i)
  unfolding RType.execute RType.execute_add RType.execute_sub RType.execute_sll RType.execute_slt
      RType.execute_sltu RType.execute_xor RType.execute_srl RType.execute_sra RType.execute_or
      RType.execute_and RType.execute_mul RType.execute_mulh RType.execute_mulhsu
      RType.execute_mulhu RType.execute_div RType.execute_divu RType.execute_rem RType.execute_remu
  register_arithmetic-Keeps i =
      let hs = r_fields i in
      let d = description (bits i 12 14) (bits i 25 31) in
      if-Keeps (d == description 0 0x0) _ _ (binary-Keeps _ _ _ _ hs (λ x y hx hy. omega arith)) (
        if-Keeps (d == description 0 0x20) _ _ (binary-Keeps _ _ _ _ hs (λ x y hx hy. omega arith))
          (if-Keeps (d == description 1 0x0) _ _
            (shift-Keeps _ _ _ _ _ hs (λ x y hx hy. omega arith))
            (if-Keeps (d == description 2 0x0) _ _
              (binary-Keeps _ _ _ _ hs (λ x y hx hy. flag-lt _))
              (if-Keeps (d == description 3 0x0) _ _
                (binary-Keeps _ _ _ _ hs (λ x y hx hy. flag-lt _))
                (if-Keeps (d == description 4 0x0) _ _ (binary-Keeps _ _ _ _ hs (bit_xor-lt 32)) (
                  if-Keeps (d == description 5 0x0) _ _
                    (shift-Keeps _ _ _ _ _ hs (λ x y hx hy. shifted-lt x _ hx))
                    (if-Keeps (d == description 5 0x20) _ _
                      (shift-Keeps _ _ _ _ _ hs (λ x y hx hy. to_word-lt _))
                      (if-Keeps (d == description 6 0x0) _ _
                        (binary-Keeps _ _ _ _ hs (bit_or-lt 32))
                        (if-Keeps (d == description 7 0x0) _ _
                          (binary-Keeps _ _ _ _ hs (λ x y hx hy. bit_and-lt 32 x y hx))
                          (if-Keeps (d == description 0 0x1) _ _
                            (binary-Keeps _ _ _ _ hs (λ x y hx hy. omega arith))
                            (if-Keeps (d == description 1 0x1) _ _
                              (binary-Keeps _ _ _ _ hs mulh-Words)
                              (if-Keeps (d == description 2 0x1) _ _
                                (binary-Keeps _ _ _ _ hs mulhsu-Words)
                                (if-Keeps (d == description 3 0x1) _ _
                                  (binary-Keeps _ _ _ _ hs (λ x y hx hy. omega arith))
                                  (if-Keeps (d == description 4 0x1) _ _
                                    (binary-Keeps _ _ _ _ hs div-Words)
                                    (if-Keeps (d == description 5 0x1) _ _
                                      (binary-Keeps _ _ _ _ hs divu-Words)
                                      (if-Keeps (d == description 6 0x1) _ _
                                        (binary-Keeps _ _ _ _ hs rem-Words)
                                        (if-Keeps (d == description 7 0x1) _ _
                                          (binary-Keeps _ _ _ _ hs remu-Words)
                                          (λ m h. done tt h))))))))))))))))))

  pub branches-Keeps : (i : ℕ) → Keeps Any (BType.execute i)
  unfolding BType.execute BType.execute_beq BType.execute_bne BType.execute_blt BType.execute_bge
      BType.execute_bltu BType.execute_bgeu
  branches-Keeps i =
      let hs = b_fields i in
      if-Keeps (bits i 12 14 == 0) _ _ (branch-Keeps _ _ _ _ hs) (
        if-Keeps (bits i 12 14 == 1) _ _ (branch-Keeps _ _ _ _ hs) (
          if-Keeps (bits i 12 14 == 4) _ _ (branch-Keeps _ _ _ _ hs) (
            if-Keeps (bits i 12 14 == 5) _ _ (branch-Keeps _ _ _ _ hs) (
              if-Keeps (bits i 12 14 == 6) _ _ (branch-Keeps _ _ _ _ hs)
                (if-Keeps (bits i 12 14 == 7) _ _ (branch-Keeps _ _ _ _ hs) (λ m h. done tt h))))))

  -- The link register, if it is not x0.
  pub link-Keeps :
      (rd v : ℕ) → rd < 32 → Word v → Keeps Any (when (not (rd == 0)) (set_register rd v))
  link-Keeps rd v hd hv =
      if-Keeps (not (rd == 0)) _ (pure tt) (set_register-Keeps rd v hd hv) (λ m h. done tt h)

  jal-Keeps : (args : JArguments) → args.rd < 32 → Keeps Any (JType.execute_jal args)
  unfolding JType.execute_jal
  jal-Keeps args hd m h =
      and_then-Keeps _ (link-Keeps args.rd m.next_pc hd (λ t. (h.2 t).next_pc) m h)
        (λ u hu m' h'. done tt (jump-Holds m'.pc _ m' (λ t. (h'.2 t).pc) (u32-Word _) h'))

  pub jumps-Keeps : (i : ℕ) → Keeps Any (JType.execute i)
  unfolding JType.execute
  jumps-Keeps i = jal-Keeps (j_arguments i) (j_field i)

  pub jalr-Keeps : (i : ℕ) → Keeps Any (IType.execute_jalr i)
  unfolding IType.execute_jalr
  jalr-Keeps i m h =
      let args = i_arguments i in
      and_then-Keeps _ (get_register-Keeps args.rs1 ((i_fields i).0) m h) (λ x hx m1 h1.
        and_then-Keeps _
          (link-Keeps args.rd m.next_pc ((i_fields i).1) (λ t. (h.2 t).next_pc) m1 h1)
          (λ u hu m2 h2. done tt (
            jump-Holds m2.pc _ m2 (λ t. (h2.2 t).pc)
              (λ t. bit_and-lt 32 (u32 (x + args.imm)) _ (omega arith)) h2)))

  pub fence-Keeps : (i : ℕ) → Keeps Any (IType.execute_fence i)
  unfolding IType.execute_fence
  fence-Keeps i =
      if-Keeps (bits i 12 14 == 0) _ _ (λ m h. done tt h)
        (if-Keeps (bits i 12 14 == 1) _ _ (λ m h. done tt h) (λ m h. done tt h))

  pub lui-Keeps : (i : ℕ) → Word i → Keeps Any (UType.execute_lui i)
  unfolding UType.execute_lui u_arguments
  lui-Keeps i hi m h =
      and_then-Keeps _ (set_register-Keeps _ _ (u_field i) (λ t. bit_and-lt 32 i _ (hi t)) m h)
        (λ u hu m h. done tt h)

  pub auipc-Keeps : (i : ℕ) → Keeps Any (UType.execute_auipc i)
  unfolding UType.execute_auipc
  auipc-Keeps i m h =
      and_then-Keeps _ (set_register-Keeps _ _ (u_field i) (u32-Word _) m h) (λ u hu m h. done tt h)

  pub immediate_arithmetic-Keeps : (i : ℕ) → Keeps Any (IType.execute_arithmetic i)
  unfolding IType.execute_arithmetic IType.execute_addi IType.execute_slti IType.execute_sltiu
      IType.execute_xori IType.execute_ori IType.execute_andi IType.execute_slli IType.execute_srli
      IType.execute_srai i_arguments
  immediate_arithmetic-Keeps i =
      let hs = i_fields i in
      let imm = i_imm-lt i in
      let funct3 = bits i 12 14 in
      let d = description funct3 (bits i 30 30) in
      if-Keeps (funct3 == 0) _ _ (unary-Keeps _ _ _ hs (λ x hx. omega arith)) (
        if-Keeps (funct3 == 2) _ _ (unary-Keeps _ _ _ hs (λ x hx. flag-lt _)) (
          if-Keeps (funct3 == 3) _ _ (unary-Keeps _ _ _ hs (λ x hx. flag-lt _)) (
            if-Keeps (funct3 == 4) _ _ (unary-Keeps _ _ _ hs (λ x hx. bit_xor-lt 32 x _ hx imm)) (
              if-Keeps (funct3 == 6) _ _ (unary-Keeps _ _ _ hs (λ x hx. bit_or-lt 32 x _ hx imm)) (
                if-Keeps (funct3 == 7) _ _ (unary-Keeps _ _ _ hs (λ x hx. bit_and-lt 32 x _ hx)) (
                  if-Keeps (d == description 1 0) _ _ (unary-Keeps _ _ _ hs (λ x hx. omega arith)) (
                    if-Keeps (d == description 5 0) _ _
                      (unary-Keeps _ _ _ hs (λ x hx. shifted-lt x _ hx))
                      (if-Keeps (d == description 5 1) _ _
                        (unary-Keeps _ _ _ hs (λ x hx. to_word-lt _)) (λ m h. done tt h)))))))))
