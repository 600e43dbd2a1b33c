-- ===== src/Memory/Image.antt =====
-- core/Memory.cpp: RAM behind the stores of a list of bytes, one by one.
use riscv_sym.Base.{
  ℕ, trichotomy, minus_same, minus_suc, ◌+◌, ◌-◌, ◌≡◌, leb, ltb, ◌&&◌, if◌then◌else◌, List, [], ◌∷◌,
  arith, ap, ◌∙◌, inl, inr,
}
use riscv_sym.Base.Lists.{length, get_or}
use riscv_sym.State.{Memory}
use riscv_sym.Memory.Physical.{ram_byte}
use riscv_sym.Memory.Access.{ram_write}
use riscv_sym.Memory.Ram.{ram_byte-ram_write}

-- The memory behind the stores of a list of bytes from an address on.
abbrev pub image : ℕ → List ℕ → Memory → Memory
image a [] mem = mem
image a (b ∷ buffer) mem = image (a + 1) buffer (ram_write a (b ∷ []) mem)

-- Each byte of RAM is the list's one inside the range, and what it was everywhere else.
pub ram_byte-image :
    (x a : ℕ) (buffer : List ℕ) (mem : Memory)
    → ram_byte x (image a buffer mem)
      ≡ (if leb a x && ltb x (a + length buffer) then get_or buffer (x - a) 0 else ram_byte x mem)
ram_byte-image x a [] mem = ground arith
ram_byte-image x a (b ∷ buffer) mem =
    let rest = ram_byte-image x (a + 1) buffer (ram_write a (b ∷ []) mem) in
    let one = ram_byte-ram_write x a (b ∷ []) mem (omega arith) in
    elim (trichotomy x a) [
      | inl lt ↦ rest ∙ ground (arith, one)
      | inr (inl e) ↦
          rest
          ∙ ground (
            arith,
            one,
            ap (λ (t : ℕ). get_or (b ∷ buffer) t 0) (minus_same x a e),
            ap (λ (t : ℕ). get_or (b ∷ []) t 0) (minus_same x a e),
          )
      | inr (inr gt) ↦ rest ∙ rw (minus_suc x a gt) (ground (arith, one))
    ]
