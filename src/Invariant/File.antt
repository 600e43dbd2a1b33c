-- ===== src/Invariant/File.antt =====
-- The loading of a kernel and the calls of `executeFromBinFile` keep an invariant.
use riscv_sym.Invariant.Interface.{Invariant}
use riscv_sym.Base.{ℕ, ◌+◌, ◌^◌, ◌<◌, Option, none, some, List, [], ◌∷◌, u32, Bool, true, false}
use riscv_sym.Base.Lists.{All}
use riscv_sym.State.{Machine, Outcome, ok, raise}
use riscv_sym.Run.{Round, next, stop, escape, run}
use riscv_sym.Run.File.{
  write_buffer, load_bin_file_to_memory, Execution, returns, running, throws, end_of_loop,
  execute_from_bin_file,
}
use riscv_sym.Invariant.Safe.{
  Holds, Word, Any, Safe, done, thrown, Keeps, and_then-Keeps, jump-Holds,
}
use riscv_sym.Invariant.Commands.{u32-Word, write8-Keeps}
use riscv_sym.Invariant.Steps.{state, run-Holds, Typing}

abbrev pub AllBytes : List ℕ → Type 0
AllBytes bytes = All (λ b. b < 2 ^ 8) bytes

-- A file of bytes, where it can be read.
abbrev pub FileBytes : Option (List ℕ) → Type 0
FileBytes none = Unit
FileBytes (some bytes) = AllBytes bytes

-- The machine that `executeFromBinFile` leaves.
abbrev pub machine_of : Execution → Machine
machine_of (returns b m) = m
machine_of (running m) = m
machine_of (throws e m) = m

module _ ⦃inv : Invariant⦄ where
  write_buffer-Keeps :
      (start i : ℕ) (bytes : List ℕ)
      → (inv.Typed → AllBytes bytes)
      → Keeps Any (write_buffer start i bytes)
  unfolding write_buffer
  write_buffer-Keeps start i [] hb m h = done tt h
  write_buffer-Keeps start i (b ∷ bytes) hb m h =
      and_then-Keeps _ (write8-Keeps (u32 (start + i)) b (u32-Word _) (λ t. (hb t).0) m h)
        (λ u hu. write_buffer-Keeps start (i + 1) bytes (λ t. (hb t).1))

  load-Keeps :
      (file : Option (List ℕ)) (start : ℕ)
      → (inv.Typed → FileBytes file)
      → Keeps Any (load_bin_file_to_memory file start)
  unfolding load_bin_file_to_memory
  load-Keeps none start hf m h = done tt h
  load-Keeps (some bytes) start hf m h =
      and_then-Keeps _ (write_buffer-Keeps start 0 bytes hf m h) (λ u hu m h. done tt h)

  end_of_loop-Holds : (r : Round) → Holds (state r) → Holds (machine_of (end_of_loop r))
  unfolding end_of_loop
  end_of_loop-Holds (next m) h = h
  end_of_loop-Holds (stop m) h = h
  end_of_loop-Holds (escape e m) h = h

  module _ (fuel start : ℕ) (typed : ℕ → Option ℕ) (hs : Word start)
      (ht : (j : ℕ) → Typing (typed j)) where
    loaded-Holds :
        {o : Outcome Bool}
        → Safe Any o
        → Holds (
            machine_of (elim o [
              | ok true m ↦ end_of_loop (run fuel 0 typed (record m { pc = start }))
              | ok false m ↦ returns false m
              | raise e m ↦ throws e m
            ]))
    loaded-Holds (done {a = true} {m} q h) = end_of_loop-Holds _ (
        (run-Holds fuel 0 typed (record m { pc = start }) ht
          (jump-Holds start m.next_pc m hs (λ t. (h.2 t).next_pc) h)).0)
    loaded-Holds (done {a = false} {m} q h) = h
    loaded-Holds (thrown {e} {m} s h) = h

    pub execute_from_bin_file-Holds :
        (file : Option (List ℕ)) (m : Machine)
        → (inv.Typed → FileBytes file)
        → Holds m
        → Holds (machine_of (execute_from_bin_file fuel file start typed m))
    unfolding execute_from_bin_file
    execute_from_bin_file-Holds file m hf h = loaded-Holds (load-Keeps file start hf m h)
