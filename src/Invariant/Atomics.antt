-- ===== src/Invariant/Atomics.antt =====
-- The atomic instructions keep an invariant.
use riscv_sym.Invariant.Interface.{Invariant}
use riscv_sym.Base.{ℕ, ◌<◌, arith, ◌==◌, true, false, ◌&&◌, ◌>>>◌}
use riscv_sym.State.{AccessType}
use riscv_sym.Cpu.{make_reservation, check_and_clear_reservation}
use riscv_sym.Instruction.Decode.{RArguments, bits, description}
use riscv_sym.Range.Fields.{r_fields}
use riscv_sym.Instruction.Atomic
use riscv_sym.Instruction.Atomic.{execute_lr, execute_sc, execute_amo, store_conditional}
use riscv_sym.Range.Words.{
  Words, swap-Words, add-Words, xor-Words, and-Words, or-Words, min-Words, max-Words, minu-Words,
  maxu-Words,
}
use riscv_sym.Invariant.Safe.{
  Word, Any, done, Keeps, reserved-Holds, and_then-Keeps, if-Keeps, get_register-Keeps,
}
use riscv_sym.Invariant.Commands.{read32-Keeps, write32-Keeps, translate_address-Keeps}
use riscv_sym.Invariant.Loads.{notify_store-Holds}
use riscv_sym.Invariant.Registers.{link-Keeps}

module _ ⦃inv : Invariant⦄ where
  abbrev Registers : RArguments → Type 0
  Registers args = (args.rs1 < 32) × (args.rs2 < 32) × (args.rd < 32)

  lr-Keeps : (args : RArguments) → Registers args → Keeps Any (execute_lr args)
  unfolding execute_lr make_reservation
  lr-Keeps args (h1, h2, hd) m h =
      and_then-Keeps _ (get_register-Keeps args.rs1 h1 m h) (λ a ha m h.
        and_then-Keeps _ (read32-Keeps a false ha m h) (λ v hv m h.
          and_then-Keeps _ (translate_address-Keeps a AccessType.load ha m h) (λ p hp m h.
            and_then-Keeps _ (link-Keeps args.rd v hd hv _ (reserved-Holds true p m hp h))
              (λ u hu m h. done tt h))))

  store_conditional-Keeps :
      (args : RArguments) (a : ℕ) → Registers args → Word a → Keeps Any (store_conditional args a)
  unfolding store_conditional
  store_conditional-Keeps args a (h1, h2, hd) ha m h =
      and_then-Keeps _ (get_register-Keeps args.rs2 h2 m h) (λ v hv m h.
        and_then-Keeps _ (write32-Keeps a v ha hv m h)
          (λ u hu m h. link-Keeps args.rd 0 hd (λ t. omega arith) m h))

  sc-Keeps : (args : RArguments) → Registers args → Keeps Any (execute_sc args)
  unfolding execute_sc check_and_clear_reservation
  sc-Keeps args (h1, h2, hd) m h =
      and_then-Keeps _ (get_register-Keeps args.rs1 h1 m h) (λ a ha m h.
        and_then-Keeps _ (translate_address-Keeps a AccessType.load ha m h) (λ p hp m h.
          and_then-Keeps _
            (if-Keeps (m.reservation_valid && m.reservation_address == p) _ _
              (store_conditional-Keeps args a (h1, h2, hd) ha)
              (link-Keeps args.rd 1 hd (λ t. omega arith)) (record m { reservation_valid = false })
              (reserved-Holds false _ m (λ t. (h.2 t).reservation) h))
            (λ u hu m h. done tt h)))

  amo-Keeps :
      (f : ℕ → ℕ → ℕ) (args : RArguments)
      → Registers args
      → Words f
      → Keeps Any (execute_amo f args)
  unfolding execute_amo
  amo-Keeps f args (h1, h2, hd) hf m h =
      and_then-Keeps _ (get_register-Keeps args.rs1 h1 m h) (λ a ha m h.
        and_then-Keeps _ (get_register-Keeps args.rs2 h2 m h) (λ v hv m h.
          and_then-Keeps _ (read32-Keeps a false ha m h) (λ old ho m h.
            and_then-Keeps _
              (write32-Keeps a (f old v) ha (λ t. hf old v (ho t) (hv t)) _
                (notify_store-Holds a 4 m h))
              (λ u hu m h.
                and_then-Keeps _ (link-Keeps args.rd old hd ho m h) (λ u hu m h. done tt h)))))

  pub atomics-Keeps : (i : ℕ) → Keeps Any (Atomic.execute i)
  unfolding Atomic.execute
  atomics-Keeps i =
      let hs = r_fields i in
      let amo_op = bits i 25 31 >>> 2 in
      let d = description (bits i 12 14) amo_op in
      if-Keeps (d == description 2 2) _ _ (lr-Keeps _ hs) (
        if-Keeps (d == description 2 3) _ _ (sc-Keeps _ hs) (
          if-Keeps (d == description 2 0x0) _ _ (amo-Keeps _ _ hs add-Words) (
            if-Keeps (d == description 2 0x1) _ _ (amo-Keeps _ _ hs swap-Words) (
              if-Keeps (d == description 2 0x4) _ _ (amo-Keeps _ _ hs xor-Words) (
                if-Keeps (d == description 2 0x8) _ _ (amo-Keeps _ _ hs or-Words) (
                  if-Keeps (d == description 2 0xc) _ _ (amo-Keeps _ _ hs and-Words) (
                    if-Keeps (d == description 2 0x10) _ _ (amo-Keeps _ _ hs min-Words) (
                      if-Keeps (d == description 2 0x14) _ _ (amo-Keeps _ _ hs max-Words) (
                        if-Keeps (d == description 2 0x18) _ _ (amo-Keeps _ _ hs minu-Words) (
                          if-Keeps (d == description 2 0x1c) _ _ (amo-Keeps _ _ hs maxu-Words)
                            (λ m h. done tt h)))))))))))
