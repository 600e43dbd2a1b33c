-- ===== src/Examples/TextExamples.antt =====
-- Examples for lines of assembly.
use riscv_sym.Base.{◌≡◌, ◌⊎◌, [], ◌∷◌, arith}
use riscv_sym.Base.Int.{pos, negsuc, to_word}
use riscv_sym.Instruction.IType.{execute_slti}
use riscv_sym.Assembler.Decimal.{int_text}
use riscv_sym.Assembler.ImmediateMnemonic.{slti_rri}
use riscv_sym.Assembler.ImmediateMeaning.{execute_asm_command-i_line}
use riscv_sym.State.{and_then}
use riscv_sym.Assembler.Text.{codes, is_space}
use riscv_sym.Assembler.Attempt.{InstructionOutput}
use riscv_sym.Assembler.Line.{parse}
use riscv_sym.Assembler.Print.{IsName, IsOperand, print_line, parse-print_line}
use riscv_sym.Assembler.Encoded.{IsInstruction}
use riscv_sym.Assembler.Compile.{compile}
use riscv_sym.Assembler.Words.{compile-IsInstruction}
use riscv_sym.Assembler.Meaning.{done}
use riscv_sym.Run.Command.{execute_asm_command}
use riscv_sym.Examples.Machines.{start}

abbrev no_output : InstructionOutput
no_output = record { exit_code = pos 7; console_log = [] }

lw_IsName : IsName (codes "lw")
unfolding is_space
lw_IsName = ground arith

x1_IsOperand : IsOperand (codes "x1")
x1_IsOperand = ground arith

address_IsOperand : IsOperand (codes "-4(x2)")
address_IsOperand = ground arith

-- lw x1, -4(x2)
parse-print_line_example :
    parse (print_line (codes "lw") (codes "x1" ∷ codes "-4(x2)" ∷ []))
    ≡ record { instruction_name = codes "lw"; operands = codes "x1" ∷ codes "-4(x2)" ∷ [] }
parse-print_line_example =
    parse-print_line (codes "lw") (codes "x1" ∷ codes "-4(x2)" ∷ []) lw_IsName
      (x1_IsOperand, (address_IsOperand, tt))

compile-IsInstruction_example :
    let (w, out') = compile (codes "csrrwi x1, mscratch, 0x1f") no_output in
    (IsInstruction w × (out' ≡ no_output)) ⊎ (w ≡ 0)
compile-IsInstruction_example = compile-IsInstruction (codes "csrrwi x1, mscratch, 0x1f") no_output

-- slti x5, x10, -2048
execute_asm_command-i_line_example :
    let line = print_line (codes "slti") (codes "x5" ∷ codes "x10" ∷ int_text (negsuc 2047) ∷ []) in
    execute_asm_command line no_output start
    ≡ and_then (execute_slti (record { imm = 0xffff_f800; rs1 = 10; rd = 5 }) start) done
unfolding to_word
execute_asm_command-i_line_example =
    execute_asm_command-i_line slti_rri 5 10 (negsuc 2047) no_output start (omega arith)
      (omega arith) (omega arith)
