-- ===== src/Assembler/Meaning.antt =====
-- core/RiscvCpu.cpp, `executeAsmCommand`, on a printed register-register instruction.
use riscv_sym.Base.{ℕ, ◌==◌, Bool, false, some, List, [], ◌∷◌, map, ◌≡◌, refl, ap, ◌∙◌}
use riscv_sym.Base.Int.{pos}
use riscv_sym.Base.Lists.{All}
use riscv_sym.State.{M, Machine, and_then, pure}
use riscv_sym.Instruction.Decode.{RArguments}
use riscv_sym.Instruction.Execute.{execute}
use riscv_sym.Assembler.Text.{Text, is_empty, to_lower}
use riscv_sym.Assembler.Attempt.{Attempt, encoded, InstructionOutput, returned, report}
use riscv_sym.Assembler.Line.{AssemblyInstruction, parse}
use riscv_sym.Assembler.Print.{IsName, IsOperand, print_line, parse-print_line}
use riscv_sym.Assembler.RegisterName.{register_text}
use riscv_sym.Assembler.Mnemonic.{Mnemonic, name}
use riscv_sym.Assembler.System.{lookup}
use riscv_sym.Assembler.Compile.{instruction_map, assemble, get_instruction, compile}
use riscv_sym.Run.Command.{
  get_binary_instruction_from_asm_command, Answer, performed, execute_asm_command,
}

print_line_filled : (s : Text) (os : List Text) → IsName s → is_empty (print_line s os) ≡ false
unfolding is_empty print_line
print_line_filled [] os (h, _) = absurd (h refl)
print_line_filled (c ∷ s) os h = refl

-- A printed line reaches the function that the table has for its name.
pub get_instruction-print_line :
    (s : Text) (os : List Text) (f : AssemblyInstruction → Attempt ℕ)
    → IsName s
    → All IsOperand os
    → lookup (map to_lower s) instruction_map ≡ some f
    → get_instruction (print_line s os) ≡ f (record { instruction_name = s; operands = os })
unfolding get_instruction assemble
get_instruction-print_line s os f hs ho hl =
    let read : assemble (parse (print_line s os))
        ≡ assemble (record { instruction_name = s; operands = os }) =
      ap assemble (parse-print_line s os hs ho) in
    rw (print_line_filled s os hs) (read ∙ (rw (assemble, hl) refl))

abbrev pub r_line : Mnemonic → RArguments → Text
r_line k args =
    print_line (name k)
      (register_text args.rd ∷ register_text args.rs1 ∷ register_text args.rs2 ∷ [])

abbrev pub done : Bool → M Answer
done known = pure (performed 0 (pos 0))

-- A line that is encoded is executed.
pub execute_asm_command-encoded :
    (line : Text) (out : InstructionOutput) (w : ℕ) (m : Machine)
    → get_instruction line ≡ encoded w
    → (w == 0) ≡ false
    → execute_asm_command line out m ≡ and_then (execute w m) done
unfolding execute_asm_command get_binary_instruction_from_asm_command compile returned report
execute_asm_command-encoded line out w m e h = rw (e, h) refl
