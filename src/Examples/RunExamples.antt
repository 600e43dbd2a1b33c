-- ===== src/Examples/RunExamples.antt =====
-- Examples for whole instructions and runs.
use riscv_sym.Base.{
  ℕ, ◌+◌, ◌-◌, ◌≡◌, ◌&&◌, leb, ltb, if◌then◌else◌, refl, none, some, true, List, [], ◌∷◌, arith,
}
use riscv_sym.Base.Lists.{get_or}
use riscv_sym.Memory.Physical.{ram_byte}
use riscv_sym.Run.File.{load_bin_file_to_memory, execute_from_bin_file}
use riscv_sym.Invariant.File.{machine_of}
use riscv_sym.Memory.Image.{image}
use riscv_sym.Run.Image.{load_bin_file_to_memory-image}
use riscv_sym.State.{Machine, ok}
use riscv_sym.Run.{run}
use riscv_sym.Invariant.Steps.{Ends}
use riscv_sym.Run.Escapes.{run-Ends}
use riscv_sym.Zero.Steps.{Zero, execute_from_bin_file-Zero}
use riscv_sym.Cpu.Mode.{IsLegal}
use riscv_sym.Run.Mode.{execute_from_bin_file-IsLegal}
use riscv_sym.Examples.Machines.{start}

abbrev kernel : List ℕ
kernel = 0x13 ∷ 0x05 ∷ 0x50 ∷ 0x00 ∷ []

load_bin_file_to_memory-image_example :
    let m' = record start { mem = image 0x8000_0ffe kernel start.mem } in
    (load_bin_file_to_memory (some kernel) 0x8000_0ffe start ≡ ok true m')
    × ((x : ℕ)
        → ram_byte x m'.mem ≡ (
            if leb 0x8000_0ffe x && ltb x (0x8000_0ffe + 4)
            then get_or kernel (x - 0x8000_0ffe) 0
            else ram_byte x start.mem))
load_bin_file_to_memory-image_example =
    load_bin_file_to_memory-image 0x8000_0ffe kernel start refl refl (omega arith, omega arith)

-- `sll x10, x11, x10` in place of the kernel, with the file loaded.
abbrev shifting : Machine
shifting = record start { mem = image 0x8000_0000 (0x33 ∷ 0x95 ∷ 0xa5 ∷ 0x00 ∷ []) start.mem }

run-Ends_example : Ends (run 3 0 (λ i. none) shifting)
run-Ends_example = run-Ends 3 0 (λ i. none) shifting refl

execute_from_bin_file-Zero_example :
    Zero (machine_of (execute_from_bin_file 3 (some kernel) 0x8000_0000 (λ i. none) start))
execute_from_bin_file-Zero_example =
    execute_from_bin_file-Zero 3 0x8000_0000 (λ i. none) (some kernel) start refl

execute_from_bin_file-IsLegal_example :
    let m' = machine_of (execute_from_bin_file 3 (some kernel) 0x8000_0000 (λ i. none) start) in
    IsLegal m'.privilege_mode m'.csrs
execute_from_bin_file-IsLegal_example =
    execute_from_bin_file-IsLegal 3 0x8000_0000 (λ i. none) (some kernel) start refl
      (cc, omega arith)
