-- ===== src/Run/File.antt =====
-- core/RiscvCpu.cpp and core/Memory.cpp: the kernel and the disk image, and the order of the calls in
-- cli/main.cpp. A file is what its path opens: its bytes, or `none` where it cannot be read.
use riscv_sym.Base.{
  ℕ, ◌+◌, if◌then◌else◌, Bool, true, false, Option, none, some, List, [], ◌∷◌, u32,
}
use riscv_sym.State.{Machine, Memory, Exception, page_fault, ok, raise, M, pure, ◌>>◌}
use riscv_sym.Memory.Access.{write8}
use riscv_sym.Run.{Round, next, stop, escape, run}

-- The loop of `loadBinFileToMemory` at index `i`.
unfoldable pub write_buffer : ℕ → ℕ → List ℕ → M (Unit {0})
write_buffer start_addr i [] = pure tt
write_buffer start_addr i (b ∷ buffer) = do
  write8 (u32 (start_addr + i)) b
  write_buffer start_addr (i + 1) buffer

unfoldable pub load_bin_file_to_memory : Option (List ℕ) → ℕ → M Bool
load_bin_file_to_memory none start_addr = pure false
load_bin_file_to_memory (some buffer) start_addr = do write_buffer start_addr 0 buffer; pure true

-- How `executeFromBinFile` ends: it returns, the loop still runs after `fuel` rounds, or an exception
-- leaves it.
pub data Execution : Type 0 where
  returns : Bool → Machine → Execution
  running : Machine → Execution
  throws : Exception → Machine → Execution

unfoldable pub end_of_loop : Round → Execution
end_of_loop (next m) = running m
end_of_loop (stop m) = returns true m
end_of_loop (escape e m) = throws e m

unfoldable pub execute_from_bin_file :
    ℕ → Option (List ℕ) → ℕ → (ℕ → Option ℕ) → Machine → Execution
execute_from_bin_file fuel file start_addr typed m =
    elim (load_bin_file_to_memory file start_addr m) [
      | ok true m' ↦ end_of_loop (run fuel 0 typed (record m' { pc = start_addr }))
      | ok false m' ↦ returns false m'
      | raise e m' ↦ throws e m'
    ]

-- An empty path is no disk; the argument is a path that is not empty, with its file.
unfoldable pub load_disk_image : Option (Option (List ℕ)) → Memory → Bool × Memory
load_disk_image none mem = (true, mem)
load_disk_image (some none) mem = (false, mem)
load_disk_image (some (some bytes)) mem = (true, record mem { disk = bytes })

-- The exit code of `main` behind the command line; `none` while the simulator runs, or
-- behind an operation that C++ leaves undefined.
unfoldable pub exit_code : Execution → Option ℕ
exit_code (returns true m) = some 0
exit_code (returns false m) = some 1
exit_code (running m) = none
exit_code (throws (page_fault a type) m) = some 1
exit_code (throws Exception.out_of_range m) = some 1
exit_code (throws _ m) = none

unfoldable pub main :
    ℕ → Option (List ℕ) → Option (Option (List ℕ)) → (ℕ → Option ℕ) → Machine → Option ℕ
main fuel kernel disk typed m =
    let (loaded, mem) = load_disk_image disk m.mem in
    if loaded
    then exit_code (execute_from_bin_file fuel kernel 0x8000_0000 typed (record m { mem = mem }))
    else some 0
