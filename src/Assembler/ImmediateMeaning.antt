-- ===== src/Assembler/ImmediateMeaning.antt =====
-- core/RiscvCpu.cpp, `executeAsmCommand`: lines that are refused, and a printed instruction with an
-- immediate.
use riscv_sym.Base.{
  ℕ, ◌<◌, ◌==◌, if◌then◌else◌, Bool, true, false, [], ◌∷◌, ◌++◌, ◌≡◌, ◌⊎◌, inl, inr, refl, arith,
  ap, ◌∙◌,
}
use riscv_sym.Base.Int.{ℤ, negsuc, to_word}
use riscv_sym.State.{Machine, Outcome, and_then, ok}
use riscv_sym.Instruction.Decode.{IArguments}
use riscv_sym.Instruction.Execute.{execute}
use riscv_sym.Assembler.{encode_i_type}
use riscv_sym.Assembler.Fields.{i_arguments-encode_i_type}
use riscv_sym.Assembler.Text.{Text, codes}
use riscv_sym.Assembler.Attempt.{
  Attempt, encoded, refused, complained, InstructionOutput, validate_register, returned, report,
  refuse_when, ◌>>◌,
}
use riscv_sym.Assembler.Register.{with_three}
use riscv_sym.Assembler.Print.{print_line}
use riscv_sym.Assembler.RegisterName.{
  register_text, register_name_to_number-register_text, register_text-IsOperand,
}
use riscv_sym.Assembler.Decimal.{int_text, int_text-IsOperand}
use riscv_sym.Assembler.Immediate.{assemble_i_type}
use riscv_sym.Assembler.Encoded.{IsInstruction}
use riscv_sym.Assembler.Compile.{get_instruction, compile}
use riscv_sym.Assembler.Words.{get_instruction-IsInstruction}
use riscv_sym.Assembler.Meaning.{get_instruction-print_line, execute_asm_command-encoded, done}
use riscv_sym.Assembler.ImmediateMnemonic.{
  ImmediateMnemonic, name, funct3, meaning, name-IsName, funct3-lt, lookup-name, execute-meaning,
  fits12, IsInt32, int32_immediate-int_text, outside-fits12, fits12-IsImm12, extend16-to_word,
}
use riscv_sym.Run.Command
use riscv_sym.Run.Command.{get_binary_instruction_from_asm_command, execute_asm_command}

-- What a refused line leaves in the output.
abbrev pub failure : Text → Text → InstructionOutput
failure line message = record {
  exit_code = negsuc 0;
  console_log = codes "Error converting `" ++ (line ++ (codes "` to binary: " ++ message));
}

pub execute_asm_command-refused :
    (line message : Text) (out : InstructionOutput) (m : Machine)
    → (get_instruction line ≡ refused message) ⊎ (get_instruction line ≡ complained message)
    → execute_asm_command line out m ≡ ok (Command.refused 1 (failure line message)) m
unfolding execute_asm_command get_binary_instruction_from_asm_command compile returned report
execute_asm_command-refused line message out m (inl e) = rw (e) refl
execute_asm_command-refused line message out m (inr e) = rw (e) refl

positive : (w : ℕ) → IsInstruction w → (w == 0) ≡ false
positive w h = ground arith

-- The line is encoded, and the word is executed.
abbrev pub Executes : Text → InstructionOutput → Machine → Type 0
Executes line out m =
    (w : ℕ) × IsInstruction w
    × (get_instruction line ≡ encoded w)
    × (execute_asm_command line out m ≡ and_then (execute w m) done)

-- The machine is left alone.
abbrev pub Refuses : Text → InstructionOutput → Machine → Type 0
Refuses line out m =
    (message : Text) × (execute_asm_command line out m
      ≡ ok (Command.refused 1 (failure line message)) m)

abbrev too_large : Text
too_large = codes "Immediate value out of 12-bit signed range (-2048 to 2047)!"

module _ (rd rs1 : ℕ) (v : ℤ) (hd : rd < 32) (h1 : rs1 < 32) (hv : IsInt32 v) where
  assemble_i_type-int_text :
      (s : Text) (f3 : ℕ) (b : Bool)
      → fits12 v ≡ b
      → assemble_i_type
          (record {
            instruction_name = s;
            operands = register_text rd ∷ register_text rs1 ∷ int_text v ∷ [];
          })
          f3
        ≡ (if b then encoded (encode_i_type (to_word 16 v) rs1 f3 rd 0x13) else refused too_large)
  unfolding assemble_i_type with_three validate_register
  assemble_i_type-int_text s f3 b e =
      rw
        (
          register_name_to_number-register_text rd hd,
          register_name_to_number-register_text rs1 h1,
          int32_immediate-int_text _ v hv,
          outside-fits12 v,
          e,
        )
        (go b)
    where
      go :
          (b : Bool)
          → (refuse_when (if b then false else true) too_large
              >> encoded (encode_i_type (to_word 16 v) rs1 f3 rd 0x13))
            ≡ (if b
                then encoded (encode_i_type (to_word 16 v) rs1 f3 rd 0x13)
                else refused too_large)
      go true = refl
      go false = refl

  abbrev pub i_line : ImmediateMnemonic → Text
  i_line k = print_line (name k) (register_text rd ∷ register_text rs1 ∷ int_text v ∷ [])

  get_instruction-i_line :
      (k : ImmediateMnemonic) (b : Bool)
      → fits12 v ≡ b
      → get_instruction (i_line k) ≡ (
          if b
          then encoded (encode_i_type (to_word 16 v) rs1 (funct3 k) rd 0x13)
          else refused too_large)
  get_instruction-i_line k b e =
      get_instruction-print_line (name k) _ _ (name-IsName k)
        (
          register_text-IsOperand rd hd,
          (register_text-IsOperand rs1 h1, (int_text-IsOperand v, tt)),
        )
        (lookup-name k)
      ∙ assemble_i_type-int_text (name k) (funct3 k) b e

  execute_encoded :
      (k : ImmediateMnemonic) (m : Machine)
      → fits12 v ≡ true
      → execute (encode_i_type (to_word 16 v) rs1 (funct3 k) rd 0x13) m
        ≡ meaning k (record { imm = to_word 32 v; rs1 = rs1; rd = rd }) m
  unfolding execute
  execute_encoded k m e =
      let i = encode_i_type (to_word 16 v) rs1 (funct3 k) rd 0x13 in
      let (same, opcode, e3) =
        i_arguments-encode_i_type (to_word 16 v) rs1 (funct3 k) rd 0x13 (fits12-IsImm12 v e) h1
          (funct3-lt k) hd (omega arith) in
      rw (opcode) (
        execute-meaning k i m e3
        ∙ ap (λ (a : IArguments). meaning k a m) same
        ∙ ap (λ (x : ℕ). meaning k (record { imm = x; rs1 = rs1; rd = rd }) m)
            (extend16-to_word v e))

-- A printed line of ADDI, SLTI, SLTIU, XORI, ORI or ANDI, with registers below 32 and any number
-- of an int32_t in decimal, is executed as that instruction if the number is from -2048 to 2047,
-- and otherwise is refused: it returns 1 with the exit code -1 and its message, and leaves the
-- machine alone.
pub execute_asm_command-i_line :
    (k : ImmediateMnemonic) (rd rs1 : ℕ) (v : ℤ) (out : InstructionOutput) (m : Machine)
    → rd < 32
    → rs1 < 32
    → IsInt32 v
    → let line = print_line (name k) (register_text rd ∷ register_text rs1 ∷ int_text v ∷ []) in
      execute_asm_command line out m ≡ (
        if fits12 v
        then and_then (meaning k (record { imm = to_word 32 v; rs1 = rs1; rd = rd }) m) done
        else ok (Command.refused 1 (failure line too_large)) m)
execute_asm_command-i_line k rd rs1 v out m hd h1 hv = go (fits12 v) refl
  where
    line : Text
    line = print_line (name k) (register_text rd ∷ register_text rs1 ∷ int_text v ∷ [])

    go :
        (b : Bool)
        → fits12 v ≡ b
        → execute_asm_command line out m ≡ (
            if b
            then and_then (meaning k (record { imm = to_word 32 v; rs1 = rs1; rd = rd }) m) done
            else ok (Command.refused 1 (failure line too_large)) m)
    go true e =
        let encoded_line = get_instruction-i_line rd rs1 v hd h1 hv k true e in
        execute_asm_command-encoded line out _ m encoded_line
          (positive _ (get_instruction-IsInstruction line _ encoded_line))
        ∙ ap (λ (o : Outcome Bool). and_then o done) (execute_encoded rd rs1 v hd h1 hv k m e)
    go false e =
        execute_asm_command-refused line too_large out m
          (inl (get_instruction-i_line rd rs1 v hd h1 hv k false e))
