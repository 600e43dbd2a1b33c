-- ===== src/Invariant/Safe.antt =====
-- What keeps an invariant, and gives values in range: commands in sequence, and the registers of
-- core/RiscvCpu.cpp.
use riscv_sym.Invariant.Interface.{Invariant}
use riscv_sym.Base.{
  ℕ, ◌^◌, ◌<◌, ◌≡◌, ◌==◌, if◌then◌else◌, Bool, true, false, arith, Bool-cases, lt→ltb, inl, inr,
}
use riscv_sym.State.{
  Machine, Memory, M, Outcome, ok, raise, final, and_then, Exception, page_fault, update, when,
  throw,
}
use riscv_sym.Cpu.{get_register, set_register}
use riscv_sym.Range.Defs.{InRange, MemoryInRange}

module _ ⦃inv : Invariant⦄ where
  abbrev pub Holds : Machine → Type 0
  Holds m = (m.regs 0 ≡ 0) × inv.Of m.privilege_mode m.csrs × (inv.Typed → InRange m)

  -- A number of `w` bits, where the types matter.
  abbrev pub Width : ℕ → ℕ → Type 0
  Width w v = inv.Typed → v < 2 ^ w

  abbrev pub Word : ℕ → Type 0
  Word v = Width 32 v

  abbrev pub Any : {A : Type 0} → A → Type 0
  Any a = Unit

  -- What may leave a command: a page fault at a word, and never the `std::out_of_range` of an array.
  abbrev pub Sound : Exception → Type 0
  Sound (page_fault v type) = Word v
  Sound Exception.out_of_range = ⊥
  Sound Exception.undefined_shift = Unit
  Sound Exception.undefined_read = Unit
  Sound Exception.undefined_overflow = Unit
  Sound Exception.out_of_fuel = Unit

  -- The invariant holds on either way out, and `Q` of the value.
  pub data Safe {A : Type 0} (Q : A → Type 0) : Outcome A → Type 0 where
    done : {a : A} {m : Machine} → Q a → Holds m → Safe Q (ok a m)
    thrown : {e : Exception} {m : Machine} → Sound e → Holds m → Safe Q (raise e m)

  abbrev pub Keeps : {A : Type 0} → (A → Type 0) → M A → Type 0
  Keeps Q c = (m : Machine) → Holds m → Safe Q (c m)

  pub Safe-Holds : {A : Type 0} {Q : A → Type 0} {o : Outcome A} → Safe Q o → Holds (final o)
  Safe-Holds (done q h) = h
  Safe-Holds (thrown s h) = h

  pub and_then-Keeps :
      {A B : Type 0} {Q : A → Type 0} {R : B → Type 0} {o : Outcome A} (k : A → M B)
      → Safe Q o
      → ((a : A) → Q a → Keeps R (k a))
      → Safe R (and_then o k)
  and_then-Keeps k (done q h) f = f _ q _ h
  and_then-Keeps k (thrown s h) f = thrown s h

  pub if-Keeps :
      {A : Type 0} {Q : A → Type 0} (b : Bool) (c d : M A)
      → Keeps Q c
      → Keeps Q d
      → Keeps Q (if b then c else d)
  if-Keeps true c d hc hd = hc
  if-Keeps false c d hc hd = hd

  pub get_register-Keeps : (r : ℕ) → r < 32 → Keeps Word (get_register r)
  unfolding get_register
  get_register-Keeps r hr m h = rw (lt→ltb r 32 hr) (done (λ t. (h.2 t).regs r) h)

  -- A register anew.
  register-Holds :
      (r v : ℕ) (m : Machine)
      → (r == 0) ≡ false
      → Word v
      → Holds m
      → Holds (record m { regs = update m.regs r v })
  register-Holds r v m e hv (zero, of, range) = (
    ground arith,
    of,
    λ t.
        let g = range t in
        record {
          regs = λ k. ground (arith, g.regs k, hv t);
          pc = g.pc;
          next_pc = g.next_pc;
          csrs = g.csrs;
          reservation = g.reservation;
          mem = g.mem;
        },
  )

  pub set_register-Keeps : (r v : ℕ) → r < 32 → Word v → Keeps Any (set_register r v)
  unfolding set_register
  set_register-Keeps r v hr hv m h = elim (Bool-cases (r == 0)) [
    | inl e ↦ rw e (done tt h)
    | inr e ↦ rw (e, lt→ltb r 32 hr) (done tt (register-Holds r v m e hv h))
  ]

  -- The memory anew.
  pub memory-Holds :
      (mem : Memory) (m : Machine)
      → (inv.Typed → MemoryInRange mem)
      → Holds m
      → Holds (record m { mem = mem })
  memory-Holds mem m hm (zero, of, range) = (
    zero,
    of,
    λ t.
        let g = range t in
        record {
          regs = g.regs;
          pc = g.pc;
          next_pc = g.next_pc;
          csrs = g.csrs;
          reservation = g.reservation;
          mem = hm t;
        },
  )

  -- The reservation anew.
  pub reserved-Holds :
      (valid : Bool) (address : ℕ) (m : Machine)
      → Word address
      → Holds m
      → Holds (record m { reservation_valid = valid; reservation_address = address })
  reserved-Holds valid address m ha (zero, of, range) = (
    zero,
    of,
    λ t.
        let g = range t in
        record {
          regs = g.regs;
          pc = g.pc;
          next_pc = g.next_pc;
          csrs = g.csrs;
          reservation = ha t;
          mem = g.mem;
        },
  )

  -- The program counters anew.
  pub jump-Holds :
      (pc next_pc : ℕ) (m : Machine)
      → Word pc
      → Word next_pc
      → Holds m
      → Holds (record m { pc = pc; next_pc = next_pc })
  jump-Holds pc next_pc m hp hn (zero, of, range) = (
    zero,
    of,
    λ t.
        let g = range t in
        record {
          regs = g.regs;
          pc = hp t;
          next_pc = hn t;
          csrs = g.csrs;
          reservation = g.reservation;
          mem = g.mem;
        },
  )

  pub when-throw-Keeps : (b : Bool) (e : Exception) → Sound e → Keeps Any (when b (throw e))
  when-throw-Keeps true e s m h = thrown s h
  when-throw-Keeps false e s m h = done tt h
