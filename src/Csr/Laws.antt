-- ===== src/Csr/Laws.antt =====
-- core/CsrUnit.cpp: what is kept by the registers, and the registers that share bits.
use riscv_sym.Base.{
  ℕ, ◌/◌, ◌%◌, ◌^◌, ◌<◌, ◌≡◌, ◌≢◌, refl, arith, bit_and, leb, ◌==◌, if◌then◌else◌, Bool-cases,
  not32, min, inl, inr,
}
use riscv_sym.Base.Bits.{bit}
use riscv_sym.Base.Bits.Laws.{
  bit-bit_and, bit-bit_or, bit_complement, bit_and-lt, bit_or-lt, bit_cases,
}
use riscv_sym.Base.Bits.Field.{bit_and_field}
use riscv_sym.State.{Csrs}
use riscv_sym.Csr.Address
use riscv_sym.Csr.Address.{mstatus_mpp, sstatus_mask, mstatus_mask}
use riscv_sym.Csr.{is_read_only, merge, legal_mstatus, write, write_register, set_mip, reset}

not32-lt : (x : ℕ) → not32 x < 2 ^ 32
not32-lt x = omega arith

pub merge-lt :
    (mask old value : ℕ)
    → mask < 2 ^ 32
    → old < 2 ^ 32
    → value < 2 ^ 32
    → merge mask old value < 2 ^ 32
unfolding merge
merge-lt mask old value hm ho hv =
    bit_or-lt 32 _ _ (bit_and-lt 32 old (not32 mask) ho) (bit_and-lt 32 value mask hv)

-- Each bit of a merge is the new value's under the mask, and the old one's elsewhere.
pub bit-merge :
    (mask old value i : ℕ)
    → mask < 2 ^ 32
    → i < 32
    → bit (merge mask old value) i ≡ (if bit mask i == 1 then bit value i else bit old i)
unfolding merge
bit-merge mask old value i hm hi = ground (
  arith,
  bit-bit_or (bit_and old (not32 mask)) (bit_and value mask) i,
  bit-bit_and old (not32 mask) i,
  bit-bit_and value mask i,
  bit_complement 32 mask i,
  bit_cases mask i,
  bit_cases old i,
  bit_cases value i,
)

pub record IsValid (csrs : Csrs) : Type 0 where
  pub words : (a : ℕ) → csrs a < 2 ^ 32
  pub not_reserved : csrs Address.mstatus / 2 ^ 11 % 4 ≢ 2

legal_mstatus-lt : (v : ℕ) → v < 2 ^ 32 → legal_mstatus v < 2 ^ 32
unfolding legal_mstatus
legal_mstatus-lt v h = ground (
  arith,
  bit_and-lt 32 v mstatus_mask h,
  bit_and-lt 32 (bit_and v mstatus_mask) (not32 mstatus_mpp),
)

legal_mstatus-not_reserved : (v : ℕ) → legal_mstatus v / 2 ^ 11 % 4 ≢ 2
unfolding legal_mstatus
legal_mstatus-not_reserved v =
    let val : ℕ = bit_and v mstatus_mask in
    ground (
      arith,
      bit_and_field 2 11 val,
      bit-bit_and val (not32 mstatus_mpp) 11,
      bit-bit_and val (not32 mstatus_mpp) 12,
    )

-- A field outside the mask is the old one.
merge-not_reserved :
    (mask old value : ℕ)
    → mask < 2 ^ 32
    → bit mask 11 ≡ 0
    → bit mask 12 ≡ 0
    → old / 2 ^ 11 % 4 ≢ 2
    → merge mask old value / 2 ^ 11 % 4 ≢ 2
merge-not_reserved mask old value hm h11 h12 ho =
    ground (arith, bit-merge mask old value 11 hm, bit-merge mask old value 12 hm)

-- No write of any number brings the reserved mode into MPP.
pub write-not_reserved :
    (csrs : Csrs) (address value : ℕ)
    → csrs Address.mstatus / 2 ^ 11 % 4 ≢ 2
    → write csrs address value Address.mstatus / 2 ^ 11 % 4 ≢ 2
unfolding write write_register
write-not_reserved csrs address value h = ground (
  arith,
  legal_mstatus-not_reserved value,
  merge-not_reserved sstatus_mask (csrs Address.mstatus) value (omega arith) refl refl h,
)

module _ (csrs : Csrs) (inv : IsValid csrs) (address value : ℕ) (hv : value < 2 ^ 32) where
  write_register-lt : (a : ℕ) → write_register csrs address value a < 2 ^ 32
  unfolding write_register
  write_register-lt a = ground (
    arith,
    inv.words a,
    legal_mstatus-lt value,
    merge-lt sstatus_mask (csrs Address.mstatus) value (omega arith) (inv.words _) hv,
    merge-lt (csrs Address.mideleg) (csrs Address.mie) value (inv.words _) (inv.words _) hv,
    merge-lt (bit_and (csrs Address.mideleg) 0x222) (csrs Address.mip) value
        (bit_and-lt 32 (csrs Address.mideleg) 0x222 (inv.words _)) (inv.words _) hv,
    merge-lt 0x222 (csrs address) value (omega arith) (inv.words _) hv,
  )

  write_register-not_reserved : write_register csrs address value Address.mstatus / 2 ^ 11 % 4 ≢ 2
  unfolding write_register
  write_register-not_reserved = ground (
    arith,
    inv.not_reserved,
    legal_mstatus-not_reserved value,
    merge-not_reserved sstatus_mask (csrs Address.mstatus) value (omega arith) refl refl
        inv.not_reserved,
  )

  -- If every register is a word and MPP of mstatus is not the reserved mode, both stay so after a
  -- write of any register with any word.
  pub write-IsValid : IsValid (write csrs address value)
  unfolding write
  write-IsValid = elim (Bool-cases (leb 4096 address)) [
    | inl e ↦ rw e inv
    | inr e ↦ rw e (elim (Bool-cases (is_read_only address)) [
      | inl r ↦ rw r inv
      | inr r ↦
          rw r (record { words = write_register-lt; not_reserved = write_register-not_reserved })
    ])
  ]

pub set_mip-IsValid :
    (csrs : Csrs) (value : ℕ) → IsValid csrs → value < 2 ^ 32 → IsValid (set_mip csrs value)
unfolding set_mip
set_mip-IsValid csrs value inv h = record {
  words = λ a. ground (arith, inv.words a);
  not_reserved = ground (arith, inv.not_reserved);
}

pub set_mip-not_reserved :
    (csrs : Csrs) (value : ℕ)
    → csrs Address.mstatus / 2 ^ 11 % 4 ≢ 2
    → set_mip csrs value Address.mstatus / 2 ^ 11 % 4 ≢ 2
unfolding set_mip
set_mip-not_reserved csrs value h = ground (arith, h)

pub reset-IsValid : IsValid reset
unfolding reset
reset-IsValid = record { words = λ a. ground arith; not_reserved = omega arith }

-- The register that a write changes: the machine register behind `sstatus`, `sie` and `sip`.
abbrev pub target : ℕ → ℕ
target address =
    if address == Address.sstatus
    then Address.mstatus
    else if address == Address.sie
    then Address.mie
    else if address == Address.sip
    then Address.mip
    else address

-- A write changes at most the register itself, or the machine register behind sstatus, sie or sip.
pub write_frame :
    (csrs : Csrs) (address value a : ℕ) → a ≢ target address → write csrs address value a ≡ csrs a
unfolding write write_register
write_frame csrs address value a ne = ground arith

-- After a write of sstatus each bit of mstatus under the mask is the written one, and each other
-- bit is as it was.
pub write-sstatus_bits :
    (csrs : Csrs) (value i : ℕ)
    → i < 32
    → bit (write csrs Address.sstatus value Address.mstatus) i
      ≡ (if bit sstatus_mask i == 1 then bit value i else bit (csrs Address.mstatus) i)
unfolding write write_register
write-sstatus_bits csrs value i lt =
    bit-merge sstatus_mask (csrs Address.mstatus) value i (omega arith) lt

-- A write of `mstatus` whose MPP field is not 2 stores each bit under the mask.
pub bit-legal_mstatus :
    (v i : ℕ) → v / 2 ^ 11 % 4 ≢ 2 → bit (legal_mstatus v) i ≡ min (bit v i) (bit mstatus_mask i)
unfolding legal_mstatus
bit-legal_mstatus v i h = ground (
  arith,
  bit_and_field 2 11 (bit_and v mstatus_mask),
  bit-bit_and v mstatus_mask i,
  bit-bit_and v mstatus_mask 11,
  bit-bit_and v mstatus_mask 12,
)
