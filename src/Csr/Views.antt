-- ===== src/Csr/Views.antt =====
-- core/CsrUnit.cpp: what a read gives after a write, through the supervisor's views, and who may
-- access a register.
use riscv_sym.Base.{
  ℕ, ◌/◌, ◌%◌, ◌^◌, ◌≤◌, ◌<◌, ◌≡◌, ◌≢◌, arith, bit_and, Bool, true, false, ◌↔◌, ◌>>>◌,
}
use riscv_sym.Base.Bits.Laws.{bit-bit_and, bits_ext, bit_and-lt, bit_cases}
use riscv_sym.Base.Bits.Field.{bit_and_low}
use riscv_sym.State.{PrivilegeMode, mode_code, Csrs}
use riscv_sym.Csr.Address
use riscv_sym.Csr.Address.{mstatus_mpp, sstatus_mask, mstatus_mask}
use riscv_sym.Csr.{read, merge, write, can_access}
use riscv_sym.Csr.Laws.{bit-merge, merge-lt, IsValid}

-- Under its own mask a merge is the new value.
and-merge :
    (mask old value : ℕ)
    → mask < 2 ^ 32
    → old < 2 ^ 32
    → value < 2 ^ 32
    → bit_and (merge mask old value) mask ≡ bit_and value mask
and-merge mask old value hm ho hv =
    bits_ext 32 _ _ (bit_and-lt 32 _ mask (merge-lt mask old value hm ho hv))
      (bit_and-lt 32 value mask hv)
      (λ i lt. ground (
        arith,
        bit-bit_and (merge mask old value) mask i,
        bit-bit_and value mask i,
        bit-merge mask old value i hm lt,
        bit_cases mask i,
        bit_cases value i,
        bit_cases old i,
      ))

-- With valid registers, a read of sstatus after a write gives the written word under the mask.
pub read-sstatus-write :
    (t : ℕ) (csrs : Csrs) (value : ℕ)
    → IsValid csrs
    → value < 2 ^ 32
    → read t (write csrs Address.sstatus value) Address.sstatus ≡ bit_and value sstatus_mask
unfolding read write
read-sstatus-write t csrs value inv hv =
    and-merge sstatus_mask (csrs Address.mstatus) value (omega arith) (inv.words _) hv

-- With valid registers, a read of sie after a write gives the written word under mideleg.
pub read_sie-write :
    (t : ℕ) (csrs : Csrs) (value : ℕ)
    → IsValid csrs
    → value < 2 ^ 32
    → read t (write csrs Address.sie value) Address.sie ≡ bit_and value (csrs Address.mideleg)
unfolding read write
read_sie-write t csrs value inv hv =
    and-merge (csrs Address.mideleg) (csrs Address.mie) value (inv.words _) (inv.words _) hv

-- A register with no special treatment: below the counters and the read-only registers, no view, and
-- none that a write changes in part or not at all.
abbrev pub IsPlain : ℕ → Type 0
IsPlain a =
    (a < 0xc00)
    × (a ≢ Address.sstatus)
    × (a ≢ Address.sie)
    × (a ≢ Address.sip)
    × (a ≢ Address.mstatus)
    × (a ≢ Address.mip)
    × (a ≢ Address.misa)

-- A register below 0xc00 other than sstatus, sie, sip, mstatus, mip and misa gives back what was
-- written.
pub read-write_plain :
    (t : ℕ) (csrs : Csrs) (a value : ℕ) → IsPlain a → read t (write csrs a value) a ≡ value
unfolding read write
read-write_plain t csrs a value h = ground arith

-- A register may be accessed exactly from a mode at or above the one that its address names, and
-- written only if the address is not marked read-only.
pub can_access_iff :
    (a : ℕ) (mode : PrivilegeMode) (is_write : Bool)
    → a < 4096
    → (can_access a mode is_write ≡ true)
      ↔ ((a / 256 % 4 ≤ mode_code mode) × ((is_write ≡ true) → a / 1024 ≢ 3))
unfolding can_access
can_access_iff a mode is_write h = ground (arith, bit_and_low 2 (a >>> 8))

-- A write of a register that machine mode may not write changes nothing.
pub write_denied :
    (csrs : Csrs) (a value : ℕ)
    → can_access a PrivilegeMode.machine true ≡ false
    → write csrs a value ≡ csrs
unfolding can_access write
write_denied csrs a value h = ground (arith, bit_and_low 2 (a >>> 8))
