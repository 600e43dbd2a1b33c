-- ===== src/Csr.antt =====
-- core/CsrUnit.cpp: the control and status registers. `read` takes the value of
-- `Memory::getInstance().getMtime()` as an argument. The debug log of a refused write is left out.
pub mod Address
pub mod Laws
pub mod Views
use riscv_sym.Base.{
  ℕ, ◌*◌, ◌/◌, ◌%◌, ◌^◌, bit_and, bit_or, ltb, leb, ◌==◌, if◌then◌else◌, Bool, true, false, ◌&&◌,
  ◌||◌, not32, u32, ◌>>>◌,
}
use riscv_sym.State.{PrivilegeMode, mode_code, Csrs, update}
use Address
use Address.{mstatus_mpp, sstatus_mask, mstatus_mask}

unfoldable pub reset : Csrs
reset =
    update (update (update (λ _. 0) Address.misa Address.misa_value) Address.mstatus mstatus_mpp)
      Address.mhartid 0

unfoldable pub is_read_only : ℕ → Bool
is_read_only address = (address >>> 10) == 3

-- The `switch` of `read`: three registers are views of others.
unfoldable pub read_register : Csrs → ℕ → ℕ
read_register csrs address =
    if address == Address.sstatus
    then bit_and (csrs Address.mstatus) sstatus_mask
    else if address == Address.sie
    then bit_and (csrs Address.mie) (csrs Address.mideleg)
    else if address == Address.sip
    then bit_and (csrs Address.mip) (csrs Address.mideleg)
    else csrs address

unfoldable pub read : ℕ → Csrs → ℕ → ℕ
unfolding read_register
read mtime csrs address =
    if leb 4096 address
    then 0
    else if address == 0xc00 || (address == 0xc01 || address == 0xc02)
    then u32 mtime
    else if address == 0xc80 || (address == 0xc81 || address == 0xc82)
    then u32 (mtime >>> 32)
    else read_register csrs address

-- `(old & ~mask) | (value & mask)`.
unfoldable pub merge : ℕ → ℕ → ℕ → ℕ
merge mask old value = bit_or (bit_and old (not32 mask)) (bit_and value mask)

-- What is stored for a write of `mstatus`: MPP is never 2.
unfoldable pub legal_mstatus : ℕ → ℕ
legal_mstatus value =
    let val = bit_and value mstatus_mask in
    if bit_and val mstatus_mpp == 2 * 2 ^ 11 then bit_and val (not32 mstatus_mpp) else val

-- The `switch` of `write`.
unfoldable pub write_register : Csrs → ℕ → ℕ → Csrs
write_register csrs address value =
    if address == Address.mstatus
    then update csrs address (legal_mstatus value)
    else if address == Address.sstatus
    then update csrs Address.mstatus (merge sstatus_mask (csrs Address.mstatus) value)
    else if address == Address.sie
    then update csrs Address.mie (merge (csrs Address.mideleg) (csrs Address.mie) value)
    else if address == Address.sip
    then update csrs Address.mip
        (merge (bit_and (csrs Address.mideleg) 0x222) (csrs Address.mip) value)
    else if address == Address.mip
    then update csrs address (merge 0x222 (csrs address) value)
    else if address == Address.satp
    then update csrs address value
    else if address == Address.misa
        || (address == Address.mhartid
            || (address == Address.mvendorid
                || (address == Address.marchid || address == Address.mimpid)))
    then csrs
    else update csrs address value

unfoldable pub write : Csrs → ℕ → ℕ → Csrs
unfolding is_read_only write_register
write csrs address value =
    if leb 4096 address
    then csrs
    else if is_read_only address
    then csrs
    else write_register csrs address value

unfoldable pub set_bit : ℕ → Csrs → ℕ → ℕ → Csrs
set_bit mtime csrs address mask = write csrs address (bit_or (read mtime csrs address) mask)

unfoldable pub clear_bit : ℕ → Csrs → ℕ → ℕ → Csrs
clear_bit mtime csrs address mask =
    write csrs address (bit_and (read mtime csrs address) (not32 mask))

-- Used by the run loop to signal the pending interrupts of the hardware.
unfoldable pub set_mip : Csrs → ℕ → Csrs
set_mip csrs value = update csrs Address.mip value

unfoldable pub can_access : ℕ → PrivilegeMode → Bool → Bool
unfolding is_read_only
can_access address mode is_write =
    if ltb (mode_code mode) (bit_and (address >>> 8) 3)
    then false
    else if is_write && is_read_only address
    then false
    else true
