-- ===== src/Invariant/Commands.antt =====
-- The reads and writes of core/Memory.cpp keep an invariant, and reads give values of their width.
use riscv_sym.Invariant.Interface.{Invariant}
use riscv_sym.Base.{
  ℕ, ◌+◌, ◌^◌, ◌<◌, ◌==◌, leb, if◌then◌else◌, Bool, inl, inr, arith, bit_and, ◌∙◌, u32, ◌||◌, List,
}
use riscv_sym.State.{Machine, Memory, ok, raise, page_fault, and_then, AccessType, PrivilegeMode}
use riscv_sym.Memory.Translate.{
  translate_address, effective_mode, on_memory, modify_memory, leaf1, leaf0, has,
}
use riscv_sym.Memory.Sv32.{
  entry1, check1, translate_address-cases, walk-check1, leaf1-cases, leaf0-cases,
}
use riscv_sym.Memory.Access.{
  read8, read16, read32, write8, write16, write32, byte_of, physical_write,
}
use riscv_sym.Range.Defs.{MemoryInRange, either}
use riscv_sym.Range.Members.{mask8-lt}
use riscv_sym.Range.Ram.{
  AllBytes, physical_write-InRange, read32_physical-Below, read16_physical-Below,
  read8_physical-Below, join_bytes-lt, join_halves-lt,
}
use riscv_sym.Invariant.Safe.{
  Holds, Width, Word, Any, Safe, done, thrown, Keeps, and_then-Keeps, if-Keeps, memory-Holds,
  when-throw-Keeps,
}

module _ ⦃inv : Invariant⦄ where
  abbrev pub Byte : ℕ → Type 0
  Byte v = Width 8 v

  abbrev pub Half : ℕ → Type 0
  Half v = Width 16 v

  on_memory-Keeps :
      (w : ℕ) (f : Memory → ℕ × Memory)
      → ((mem : Memory) → MemoryInRange mem → ((f mem).0 < 2 ^ w) × MemoryInRange (f mem).1)
      → Keeps (Width w) (on_memory f)
  on_memory-Keeps w f k m h =
      done (λ t. (k m.mem ((h.2 t).mem)).0)
        (memory-Holds (f m.mem).1 m (λ t. (k m.mem ((h.2 t).mem)).1) h)

  modify_memory-Keeps :
      (f : Memory → Memory)
      → (inv.Typed → (mem : Memory) → MemoryInRange mem → MemoryInRange (f mem))
      → Keeps Any (modify_memory f)
  modify_memory-Keeps f k m h = done tt (memory-Holds (f m.mem) m (λ t. k t m.mem ((h.2 t).mem)) h)

  module _ (v : ℕ) (type : AccessType) (hv : Word v) where
    -- The way out of a leaf: the page fault, or the frame.
    leaf_end :
        (b : Bool) (frame : ℕ) (m : Machine)
        → Holds m
        → Safe Any (if b then raise (page_fault v type) m else ok frame m)
    leaf_end b frame m h = either (Safe Any) b _ _ (thrown hv h) (done tt h)

    leaf1-Keeps : (mode : PrivilegeMode) (pte : ℕ) → Keeps Any (leaf1 v type mode pte)
    leaf1-Keeps mode pte m h = rw (leaf1-cases v type mode pte m) (leaf_end _ _ m h)

    leaf0-Keeps : (mode : PrivilegeMode) (pte : ℕ) → Keeps Any (leaf0 v type mode pte)
    leaf0-Keeps mode pte m h =
        rw (leaf0-cases v type mode pte m) (
          leaf_end _ _ _
            (memory-Holds _ m (λ t. (read32_physical-Below m.mem ((h.2 t).mem) _).1) h))

    check1-Keeps : (mode : PrivilegeMode) (pte : ℕ) → Keeps Word (check1 v type mode pte)
    check1-Keeps mode pte m h =
        and_then-Keeps _ (when-throw-Keeps (bit_and pte 1 == 0) (page_fault v type) hv m h)
          (λ u hu m h.
            and_then-Keeps _
              (if-Keeps (has pte 2 || has pte 8) _ _ (leaf1-Keeps mode pte) (leaf0-Keeps mode pte) m
                h)
              (λ ppn hp m h. done (λ t. omega arith) h))

    pub translate_address-Keeps : Keeps Word (translate_address v type)
    translate_address-Keeps m h = elim (translate_address-cases v type m) [
      | inl (e, why) ↦ rw e (done hv h)
      | inr e ↦
          let mode = effective_mode type m in
          let r = entry1 v type mode m.mem in
          rw (e ∙ walk-check1 v type mode m) (
            check1-Keeps mode r.0 (record m { mem = r.1 })
              (memory-Holds r.1 m (λ t. (read32_physical-Below m.mem ((h.2 t).mem) _).1) h))
    ]

  pub u32-Word : (a : ℕ) → Word (u32 a)
  u32-Word a t = omega arith

  -- A read of `w` bits at the address that a translation gives.
  translated-Keeps :
      (w v : ℕ) (type : AccessType) (f : ℕ → Memory → ℕ × Memory)
      → ((p : ℕ) (mem : Memory)
          → MemoryInRange mem
          → ((f p mem).0 < 2 ^ w) × MemoryInRange (f p mem).1)
      → Word v
      → Keeps (Width w) (λ m. and_then (translate_address v type m) (λ p. on_memory (f p)))
  translated-Keeps w v type f k hv m h =
      and_then-Keeps _ (translate_address-Keeps v type hv m h)
        (λ p hp. on_memory-Keeps w (f p) (k p))

  -- A write of a value and its bytes.
  written-Keeps :
      (v value : ℕ) (bs : List ℕ)
      → Word v
      → Word value
      → (inv.Typed → AllBytes bs)
      → Keeps Any (λ m.
        and_then
          (translate_address v AccessType.store m)
          (λ p. modify_memory (physical_write p value bs)))
  written-Keeps v value bs hv hx hb m h =
      and_then-Keeps _ (translate_address-Keeps v AccessType.store hv m h) (λ p hp.
        modify_memory-Keeps _ (λ t mem k. physical_write-InRange mem k p value bs (hx t) (hb t)))

  pub write8-Keeps : (a v : ℕ) → Word a → Byte v → Keeps Any (write8 a v)
  unfolding write8
  write8-Keeps a v ha hv =
      written-Keeps a v _ ha (λ t. let b = hv t in omega arith) (λ t. (hv t, tt))

  pub read8-Keeps : (a : ℕ) → Word a → Keeps Byte (read8 a)
  unfolding read8
  read8-Keeps a ha = translated-Keeps 8 a _ _ (λ p mem k. read8_physical-Below mem k p) ha

  byte_of-Byte : (v k : ℕ) → Byte (byte_of v k)
  byte_of-Byte v k t = mask8-lt _

  pub read32-Keeps : (a : ℕ) (b : Bool) → Word a → Keeps Word (read32 a b)
  unfolding read32
  read32-Keeps a b ha =
      if-Keeps (leb (bit_and a 0xfff + 4) 4096) _ _
        (translated-Keeps 32 a _ _ (λ p mem k. read32_physical-Below mem k p) ha)
        (λ m h. and_then-Keeps _ (read8-Keeps a ha m h) (λ b0 h0 m h.
          and_then-Keeps _ (read8-Keeps (u32 (a + 1)) (u32-Word _) m h) (λ b1 h1 m h.
            and_then-Keeps _ (read8-Keeps (u32 (a + 2)) (u32-Word _) m h) (λ b2 h2 m h.
              and_then-Keeps _ (read8-Keeps (u32 (a + 3)) (u32-Word _) m h) (λ b3 h3 m h.
                done (λ t. join_bytes-lt b0 b1 b2 b3 (h0 t) (h1 t) (h2 t) (h3 t)) h)))))

  pub read16-Keeps : (a : ℕ) → Word a → Keeps Half (read16 a)
  unfolding read16
  read16-Keeps a ha =
      if-Keeps (leb (bit_and a 0xfff + 2) 4096) _ _
        (translated-Keeps 16 a _ _ (λ p mem k. read16_physical-Below mem k p) ha)
        (λ m h. and_then-Keeps _ (read8-Keeps a ha m h) (λ b0 h0 m h.
          and_then-Keeps _ (read8-Keeps (u32 (a + 1)) (u32-Word _) m h)
            (λ b1 h1 m h. done (λ t. join_halves-lt b0 b1 (h0 t) (h1 t)) h)))

  pub write32-Keeps : (a v : ℕ) → Word a → Word v → Keeps Any (write32 a v)
  unfolding write32
  write32-Keeps a v ha hv =
      let b = λ (k : ℕ). byte_of-Byte v k in
      if-Keeps (leb (bit_and a 0xfff + 4) 4096) _ _
        (written-Keeps a v _ ha hv (λ t. (b 0 t, (b 1 t, (b 2 t, (b 3 t, tt))))))
        (λ m h. and_then-Keeps _ (write8-Keeps a _ ha (b 0) m h) (λ u0 h0 m h.
          and_then-Keeps _ (write8-Keeps (u32 (a + 1)) _ (u32-Word _) (b 1) m h) (λ u1 h1 m h.
            and_then-Keeps _ (write8-Keeps (u32 (a + 2)) _ (u32-Word _) (b 2) m h)
              (λ u2 h2. write8-Keeps (u32 (a + 3)) _ (u32-Word _) (b 3)))))

  pub write16-Keeps : (a v : ℕ) → Word a → Word v → Keeps Any (write16 a v)
  unfolding write16
  write16-Keeps a v ha hv =
      let b = λ (k : ℕ). byte_of-Byte v k in
      if-Keeps (leb (bit_and a 0xfff + 2) 4096) _ _
        (written-Keeps a v _ ha hv (λ t. (b 0 t, (b 1 t, tt))))
        (λ m h.
          and_then-Keeps _ (write8-Keeps a _ ha (b 0) m h)
            (λ u0 h0. write8-Keeps (u32 (a + 1)) _ (u32-Word _) (b 1)))
