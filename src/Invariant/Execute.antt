-- ===== src/Invariant/Execute.antt =====
-- Every instruction keeps an invariant.
use riscv_sym.Invariant.Interface.{Invariant}
use riscv_sym.Base.{ℕ, ◌==◌}
use riscv_sym.Instruction.Decode.{bits}
use riscv_sym.Instruction.Execute.{execute}
use riscv_sym.Invariant.Safe.{Word, Any, done, Keeps, if-Keeps}
use riscv_sym.Invariant.Loads.{loads-Keeps, stores-Keeps}
use riscv_sym.Invariant.Registers.{
  register_arithmetic-Keeps, immediate_arithmetic-Keeps, branches-Keeps, jumps-Keeps, jalr-Keeps,
  fence-Keeps, lui-Keeps, auipc-Keeps,
}
use riscv_sym.Invariant.Atomics.{atomics-Keeps}
use riscv_sym.Invariant.System.{system-Keeps}

module _ ⦃inv : Invariant⦄ where
  -- Every instruction keeps the invariant, also when it throws.
  pub execute-Keeps : (i : ℕ) → Word i → Keeps Any (execute i)
  unfolding execute
  execute-Keeps i hi =
      let o = bits i 0 6 in
      if-Keeps (o == 0x33) _ _ (register_arithmetic-Keeps i) (
        if-Keeps (o == 0x2f) _ _ (atomics-Keeps i) (
          if-Keeps (o == 0x63) _ _ (branches-Keeps i) (
            if-Keeps (o == 0x13) _ _ (immediate_arithmetic-Keeps i) (
              if-Keeps (o == 0x03) _ _ (loads-Keeps i) (
                if-Keeps (o == 0x67) _ _ (jalr-Keeps i) (
                  if-Keeps (o == 0x0f) _ _ (fence-Keeps i) (
                    if-Keeps (o == 0x6f) _ _ (jumps-Keeps i) (
                      if-Keeps (o == 0x23) _ _ (stores-Keeps i) (
                        if-Keeps (o == 0x73) _ _ (system-Keeps i hi) (
                          if-Keeps (o == 0x37) _ _ (lui-Keeps i hi)
                            (if-Keeps (o == 0x17) _ _ (auipc-Keeps i) (λ m h. done tt h))))))))))))
