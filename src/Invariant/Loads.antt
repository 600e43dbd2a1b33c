-- ===== src/Invariant/Loads.antt =====
-- The loads and stores keep an invariant.
use riscv_sym.Invariant.Interface.{Invariant}
use riscv_sym.Base.{ℕ, ◌+◌, ◌^◌, ◌<◌, ◌==◌, true, false, arith, ltb, ◌&&◌, u8, u16, u32}
use riscv_sym.State.{Machine, M, pure, modify, ◌>>=◌, ◌>>◌}
use riscv_sym.Cpu.{get_register, set_register, notify_store}
use riscv_sym.Memory.Access.{read8, read16, read32, write8, write16, write32}
use riscv_sym.Instruction.Decode.{bits}
use riscv_sym.Instruction.Load
use riscv_sym.Instruction.Load.{execute_lb, execute_lh, execute_lw, execute_lbu, execute_lhu}
use riscv_sym.Instruction.SType
use riscv_sym.Instruction.SType.{execute_sb, execute_sh, execute_sw}
use riscv_sym.Range.Defs.{either}
use riscv_sym.Range.Fields.{i_fields, s_fields}
use riscv_sym.Range.Words.{sign_extend8-lt, sign_extend16-lt}
use riscv_sym.Invariant.Safe.{
  Holds, Width, Word, Any, done, Keeps, reserved-Holds, and_then-Keeps, if-Keeps,
  get_register-Keeps, set_register-Keeps,
}
use riscv_sym.Invariant.Commands.{
  u32-Word, read8-Keeps, read16-Keeps, read32-Keeps, write8-Keeps, write16-Keeps, write32-Keeps,
}

module _ ⦃inv : Invariant⦄ where
  -- A load: the address from a register, a read of `w` bits, and a register written with what `f`
  -- makes of it.
  load-Keeps :
      (rs1 rd offset w : ℕ) (read : ℕ → M ℕ) (f : ℕ → ℕ)
      → rs1 < 32
      → rd < 32
      → ((a : ℕ) → Word a → Keeps (Width w) (read a))
      → ((v : ℕ) → v < 2 ^ w → f v < 2 ^ 32)
      → Keeps Any (do
        x ← get_register rs1
        raw ← read (u32 (x + offset))
        set_register rd (f raw)
        pure true)
  load-Keeps rs1 rd offset w read f h1 hd k hf m h =
      and_then-Keeps _ (get_register-Keeps rs1 h1 m h) (λ x hx m h.
        and_then-Keeps _ (k (u32 (x + offset)) (u32-Word _) m h) (λ raw hr m h.
          and_then-Keeps _ (set_register-Keeps rd (f raw) hd (λ t. hf raw (hr t)) m h)
            (λ u hu m h. done tt h)))

  pub loads-Keeps : (i : ℕ) → Keeps Any (Load.execute i)
  unfolding Load.execute execute_lb execute_lh execute_lw execute_lbu execute_lhu
  loads-Keeps i =
      let (h1, hd) = i_fields i in
      if-Keeps (bits i 12 14 == 0) _ _
        (load-Keeps _ _ _ 8 read8 _ h1 hd read8-Keeps sign_extend8-lt)
        (if-Keeps (bits i 12 14 == 1) _ _
          (load-Keeps _ _ _ 16 read16 _ h1 hd read16-Keeps sign_extend16-lt)
          (if-Keeps (bits i 12 14 == 2) _ _
            (load-Keeps _ _ _ 32 (λ a. read32 a false) (λ x. x) h1 hd (λ a. read32-Keeps a false)
              (λ v hv. hv))
            (if-Keeps (bits i 12 14 == 4) _ _
              (load-Keeps _ _ _ 8 read8 (λ x. x) h1 hd read8-Keeps (λ v hv. omega arith))
              (if-Keeps (bits i 12 14 == 5) _ _
                (load-Keeps _ _ _ 16 read16 (λ x. x) h1 hd read16-Keeps (λ v hv. omega arith))
                (λ m h. done tt h)))))

  pub notify_store-Holds : (a s : ℕ) (m : Machine) → Holds m → Holds (notify_store a s m)
  unfolding notify_store
  notify_store-Holds a s m (zero, of, range) =
      either Holds
        (m.reservation_valid
          && (ltb a (m.reservation_address + 4) && ltb m.reservation_address (a + s)))
        _ m
        (reserved-Holds false m.reservation_address m (λ t. (range t).reservation)
          (zero, of, range))
        (zero, of, range)

  store-Keeps :
      (rs1 rs2 size offset : ℕ) (write : ℕ → ℕ → M (Unit {0})) (f : ℕ → ℕ)
      → rs1 < 32
      → rs2 < 32
      → ((a v : ℕ) → Word a → Word v → Keeps Any (write a (f v)))
      → Keeps Any (do
        x ← get_register rs1
        y ← get_register rs2
        modify (notify_store (u32 (x + offset)) size)
        write (u32 (x + offset)) (f y)
        pure true)
  store-Keeps rs1 rs2 size offset write f h1 h2 k m h =
      and_then-Keeps _ (get_register-Keeps rs1 h1 m h) (λ x hx m h.
        and_then-Keeps _ (get_register-Keeps rs2 h2 m h) (λ y hy m h.
          and_then-Keeps _
            (k (u32 (x + offset)) y (u32-Word _) hy _
              (notify_store-Holds (u32 (x + offset)) size m h))
            (λ u hu m h. done tt h)))

  pub stores-Keeps : (i : ℕ) → Keeps Any (SType.execute i)
  unfolding SType.execute execute_sb execute_sh execute_sw
  stores-Keeps i =
      let (h1, h2) = s_fields i in
      if-Keeps (bits i 12 14 == 0) _ _
        (store-Keeps _ _ 1 _ write8 u8 h1 h2
          (λ a v ha hv. write8-Keeps a (u8 v) ha (λ t. omega arith)))
        (if-Keeps (bits i 12 14 == 1) _ _
          (store-Keeps _ _ 2 _ write16 u16 h1 h2
            (λ a v ha hv. write16-Keeps a (u16 v) ha (λ t. omega arith)))
          (if-Keeps (bits i 12 14 == 2) _ _
            (store-Keeps _ _ 4 _ write32 (λ y. y) h1 h2 write32-Keeps) (λ m h. done tt h)))
