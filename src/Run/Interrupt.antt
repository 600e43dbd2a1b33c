-- ===== src/Run/Interrupt.antt =====
-- core/RiscvCpu.cpp: the choice of the interrupt that the loop takes.
use riscv_sym.Base.{
  ℕ, ◌*◌, ◌^◌, ◌≡◌, ◌≢◌, ◌==◌, ◌||◌, ◌&&◌, ltb, true, false, ◌⊎◌, inl, inr, arith, refl, bit_and,
  none, some, ne_zero, ◌↔◌,
}
use riscv_sym.Base.Bits.{bit}
use riscv_sym.Base.Bits.Laws.{bit-bit_and, bit_cases}
use riscv_sym.Base.Bits.Table.{ne_zero-bit_and}
use riscv_sym.State.{Machine, PrivilegeMode, machine, supervisor, user, reserved, mode_code}
use riscv_sym.Csr
use riscv_sym.Csr.Address
use riscv_sym.Run.{interrupt_cause, m_enabled, s_enabled}

-- Interrupt `c` is pending in `mip` and enabled in `mie`.
abbrev pub Ready : Machine → ℕ → Type 0
Ready m c = (bit (m.csrs Address.mip) c ≡ 1) × (bit (m.csrs Address.mie) c ≡ 1)

Ready-iff :
    (m : Machine) (c : ℕ)
    → (ne_zero (bit_and (bit_and (m.csrs Address.mip) (m.csrs Address.mie)) (1 * 2 ^ c)) ≡ true)
      ↔ Ready m c
Ready-iff m c = ground (
  arith,
  ne_zero-bit_and (bit_and (m.csrs Address.mip) (m.csrs Address.mie)) c,
  bit-bit_and (m.csrs Address.mip) (m.csrs Address.mie) c,
  bit_cases (m.csrs Address.mip) c,
  bit_cases (m.csrs Address.mie) c,
)

-- The privilege of interrupt `c` is open by the tests of the loop.
abbrev Enabled : Machine → ℕ → Type 0
Enabled m c =
    ((m_enabled m ≡ true) × ((c ≡ 11) ⊎ ((c ≡ 3) ⊎ (c ≡ 7))))
    ⊎ ((s_enabled m ≡ true) × ((c ≡ 9) ⊎ ((c ≡ 1) ⊎ (c ≡ 5))))

-- The same by the mode and the bits of mstatus: a mode below machine or MIE, for an external, a
-- software and a timer interrupt of machine mode, and user mode or supervisor mode with SIE, for
-- those of supervisor mode.
abbrev pub MachineOpen : Machine → Type 0
MachineOpen m = (m.privilege_mode ≢ machine) ⊎ (bit (m.csrs Address.mstatus) 3 ≡ 1)

abbrev pub SupervisorOpen : Machine → Type 0
SupervisorOpen m =
    (m.privilege_mode ≡ user)
    ⊎ ((m.privilege_mode ≡ supervisor) × (bit (m.csrs Address.mstatus) 1 ≡ 1))

abbrev pub Open : Machine → ℕ → Type 0
Open m c =
    (MachineOpen m × ((c ≡ 11) ⊎ ((c ≡ 3) ⊎ (c ≡ 7))))
    ⊎ (SupervisorOpen m × ((c ≡ 9) ⊎ ((c ≡ 1) ⊎ (c ≡ 5))))

m_enabled_iff : (m : Machine) → (m_enabled m ≡ true) ↔ MachineOpen m
unfolding m_enabled Csr.read
m_enabled_iff m =
    go (m.privilege_mode) (m.csrs Address.mstatus) (ne_zero-bit_and (m.csrs Address.mstatus) 3)
      (bit_cases (m.csrs Address.mstatus) 3)
  where
    closed :
        (x : ℕ)
        → (ne_zero (bit_and x (1 * 2 ^ 3)) ≡ (bit x 3 == 1))
        → (bit x 3 ≡ 0) ⊎ (bit x 3 ≡ 1)
        → (machine ≢ machine) ⊎ (bit x 3 ≡ 1)
        → ne_zero (bit_and x (2 ^ 3)) ≡ true
    closed x iff b (inl f) = absurd (f refl)
    closed x iff b (inr e) = ground (arith, iff, e)

    go :
        (p : PrivilegeMode) (x : ℕ)
        → (ne_zero (bit_and x (1 * 2 ^ 3)) ≡ (bit x 3 == 1))
        → (bit x 3 ≡ 0) ⊎ (bit x 3 ≡ 1)
        → ((ltb (mode_code p) 3 || (mode_code p == 3 && ne_zero (bit_and x (2 ^ 3)))) ≡ true)
          ↔ ((p ≢ machine) ⊎ (bit x 3 ≡ 1))
    go user x iff b = ((λ e. inl (λ f. cc)), (λ h. refl))
    go supervisor x iff b = ((λ e. inl (λ f. cc)), (λ h. refl))
    go reserved x iff b = ((λ e. inl (λ f. cc)), (λ h. refl))
    go machine x iff b = ((λ e. inr (ground (arith, iff, b))), closed x iff b)

s_enabled_iff : (m : Machine) → (s_enabled m ≡ true) ↔ SupervisorOpen m
unfolding s_enabled Csr.read
s_enabled_iff m =
    go (m.privilege_mode) (m.csrs Address.mstatus) (ne_zero-bit_and (m.csrs Address.mstatus) 1)
      (bit_cases (m.csrs Address.mstatus) 1)
  where
    closed :
        (x : ℕ)
        → (ne_zero (bit_and x (1 * 2 ^ 1)) ≡ (bit x 1 == 1))
        → (bit x 1 ≡ 0) ⊎ (bit x 1 ≡ 1)
        → (supervisor ≡ user) ⊎ ((supervisor ≡ supervisor) × (bit x 1 ≡ 1))
        → ne_zero (bit_and x (2 ^ 1)) ≡ true
    closed x iff b (inl f) = cc
    closed x iff b (inr (f, e)) = ground (arith, iff, e)

    closed_reserved :
        (x : ℕ) → (reserved ≡ user) ⊎ ((reserved ≡ supervisor) × (bit x 1 ≡ 1)) → false ≡ true
    closed_reserved x (inl f) = cc
    closed_reserved x (inr (f, e)) = cc

    closed_machine :
        (x : ℕ) → (machine ≡ user) ⊎ ((machine ≡ supervisor) × (bit x 1 ≡ 1)) → false ≡ true
    closed_machine x (inl f) = cc
    closed_machine x (inr (f, e)) = cc

    go :
        (p : PrivilegeMode) (x : ℕ)
        → (ne_zero (bit_and x (1 * 2 ^ 1)) ≡ (bit x 1 == 1))
        → (bit x 1 ≡ 0) ⊎ (bit x 1 ≡ 1)
        → ((ltb (mode_code p) 1 || (mode_code p == 1 && ne_zero (bit_and x (2 ^ 1)))) ≡ true)
          ↔ ((p ≡ user) ⊎ ((p ≡ supervisor) × (bit x 1 ≡ 1)))
    go user x iff b = ((λ e. inl refl), (λ h. refl))
    go supervisor x iff b = ((λ e. inr (refl, ground (arith, iff, b))), closed x iff b)
    go reserved x iff b = ((λ e. cc), (λ h. closed_reserved x h))
    go machine x iff b = ((λ e. cc), (λ h. closed_machine x h))

Open-iff : (m : Machine) (c : ℕ) → Enabled m c ↔ Open m c
Open-iff m c = (there, back)
  where
    there : Enabled m c → Open m c
    there (inl (e, h)) = inl ((m_enabled_iff m).0 e, h)
    there (inr (e, h)) = inr ((s_enabled_iff m).0 e, h)

    back : Open m c → Enabled m c
    back (inl (e, h)) = inl ((m_enabled_iff m).1 e, h)
    back (inr (e, h)) = inr ((s_enabled_iff m).1 e, h)

-- The same by the tests of the loop.
cause-Enabled : (m : Machine) (c : ℕ) → interrupt_cause m ≡ some c → Ready m c × Enabled m c
unfolding interrupt_cause Csr.read
cause-Enabled m c e = ground (
  arith,
  Ready-iff m 11,
  Ready-iff m 3,
  Ready-iff m 7,
  Ready-iff m 9,
  Ready-iff m 1,
  Ready-iff m 5,
)

no_cause-Enabled :
    (m : Machine) → (interrupt_cause m ≡ none) ↔ ((c : ℕ) → Enabled m c → ¬ Ready m c)
unfolding interrupt_cause Csr.read
no_cause-Enabled m = (
  λ e c privilege ready. ground (
    arith,
    Ready-iff m 11,
    Ready-iff m 3,
    Ready-iff m 7,
    Ready-iff m 9,
    Ready-iff m 1,
    Ready-iff m 5,
  ),
  λ f.
      let a11 = λ (h : m_enabled m ≡ true). f 11 (inl (h, inl refl)) in
      let a3 = λ (h : m_enabled m ≡ true). f 3 (inl (h, inr (inl refl))) in
      let a7 = λ (h : m_enabled m ≡ true). f 7 (inl (h, inr (inr refl))) in
      let a9 = λ (h : s_enabled m ≡ true). f 9 (inr (h, inl refl)) in
      let a1 = λ (h : s_enabled m ≡ true). f 1 (inr (h, inr (inl refl))) in
      let a5 = λ (h : s_enabled m ≡ true). f 5 (inr (h, inr (inr refl))) in
      ground (
        arith,
        a11,
        a3,
        a7,
        a9,
        a1,
        a5,
        Ready-iff m 11,
        Ready-iff m 3,
        Ready-iff m 7,
        Ready-iff m 9,
        Ready-iff m 1,
        Ready-iff m 5,
      ),
)

-- An interrupt is taken only if it is pending in mip and enabled in mie, and if its privilege is
-- open: for an external, a software or a timer interrupt of machine mode (11, 3, 7) below machine
-- mode or with MIE set, and for one of supervisor mode (9, 1, 5) in user mode, or in supervisor
-- mode with SIE set.
pub interrupt_cause-Ready :
    (m : Machine) (c : ℕ) → interrupt_cause m ≡ some c → Ready m c × Open m c
interrupt_cause-Ready m c e =
    let (ready, enabled) = cause-Enabled m c e in (ready, (Open-iff m c).0 enabled)

-- The loop takes no interrupt exactly if none is both pending in mip and enabled in mie whose
-- privilege is open: for an external, a software or a timer interrupt of machine mode (11, 3, 7)
-- below machine mode or with MIE set, and for one of supervisor mode (9, 1, 5) in user mode, or in
-- supervisor mode with SIE set.
pub interrupt_cause-none :
    (m : Machine) → (interrupt_cause m ≡ none) ↔ ((c : ℕ) → Open m c → ¬ Ready m c)
interrupt_cause-none m = (
  λ e c gate ready. (no_cause-Enabled m).0 e c ((Open-iff m c).1 gate) ready,
  λ f. (no_cause-Enabled m).1 (λ c enabled. f c ((Open-iff m c).0 enabled)),
)
