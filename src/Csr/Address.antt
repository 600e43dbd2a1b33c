-- ===== src/Csr/Address.antt =====
-- The addresses of core/include/core/CsrUnit.h, `namespace CsrAddress`, and the bit masks of
-- core/CsrUnit.cpp.
use riscv_sym.Base.{ℕ, ◌+◌, ◌*◌, ◌^◌}

abbrev pub mstatus : ℕ
mstatus = 0x300

abbrev pub misa : ℕ
misa = 0x301

abbrev pub medeleg : ℕ
medeleg = 0x302

abbrev pub mideleg : ℕ
mideleg = 0x303

abbrev pub mie : ℕ
mie = 0x304

abbrev pub mtvec : ℕ
mtvec = 0x305

abbrev pub mepc : ℕ
mepc = 0x341

abbrev pub mcause : ℕ
mcause = 0x342

abbrev pub mtval : ℕ
mtval = 0x343

abbrev pub mip : ℕ
mip = 0x344

abbrev pub sstatus : ℕ
sstatus = 0x100

abbrev pub sie : ℕ
sie = 0x104

abbrev pub stvec : ℕ
stvec = 0x105

abbrev pub sscratch : ℕ
sscratch = 0x140

abbrev pub sepc : ℕ
sepc = 0x141

abbrev pub scause : ℕ
scause = 0x142

abbrev pub stval : ℕ
stval = 0x143

abbrev pub sip : ℕ
sip = 0x144

abbrev pub satp : ℕ
satp = 0x180

abbrev pub mvendorid : ℕ
mvendorid = 0xf11

abbrev pub marchid : ℕ
marchid = 0xf12

abbrev pub mimpid : ℕ
mimpid = 0xf13

abbrev pub mhartid : ℕ
mhartid = 0xf14

-- `MSTATUS_MPP`, the two bits of the previous privilege.
abbrev pub mstatus_mpp : ℕ
mstatus_mpp = 3 * 2 ^ 11

-- SIE, SPIE, SPP, FS and SUM.
abbrev pub sstatus_mask : ℕ
sstatus_mask = 2 ^ 1 + 2 ^ 5 + 2 ^ 8 + 3 * 2 ^ 13 + 2 ^ 18

-- SIE, MIE, SPIE, MPIE, SPP, MPP, FS and SUM.
abbrev pub mstatus_mask : ℕ
mstatus_mask = 2 ^ 1 + 2 ^ 3 + 2 ^ 5 + 2 ^ 7 + 2 ^ 8 + 3 * 2 ^ 11 + 3 * 2 ^ 13 + 2 ^ 18

-- RV32, I, M, A, S and U.
abbrev pub misa_value : ℕ
misa_value = 2 ^ 30 + 2 ^ 8 + 2 ^ 12 + 2 ^ 0 + 2 ^ 18 + 2 ^ 20
