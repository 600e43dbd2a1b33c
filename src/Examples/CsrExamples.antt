-- ===== src/Examples/CsrExamples.antt =====
-- Examples for the control and status registers.
use riscv_sym.Base.{◌/◌, ◌≡◌, ◌≢◌, ◌≤◌, ◌↔◌, arith, true}
use riscv_sym.Base.Bits.{bit}
use riscv_sym.State.{supervisor}
use riscv_sym.Csr.{reset, write, read, can_access}
use riscv_sym.Csr.Address
use riscv_sym.Csr.Laws.{IsValid, write-IsValid, reset-IsValid, write-sstatus_bits}
use riscv_sym.Csr.Views.{read-sstatus-write, read-write_plain, can_access_iff}

write-IsValid_example : IsValid (write reset Address.mstatus 0xffff_ffff)
write-IsValid_example = write-IsValid reset reset-IsValid Address.mstatus 0xffff_ffff (omega arith)

write-sstatus_bits_example : bit (write reset Address.sstatus 0x20 Address.mstatus) 5 ≡ 1
write-sstatus_bits_example = write-sstatus_bits reset 0x20 5 (omega arith)

read-sstatus-write_example :
    read 0 (write reset Address.sstatus 0xffff_ffff) Address.sstatus ≡ Address.sstatus_mask
read-sstatus-write_example = read-sstatus-write 0 reset 0xffff_ffff reset-IsValid (omega arith)

read-write_plain_example : read 0 (write reset Address.mepc 0x8000_0004) Address.mepc ≡ 0x8000_0004
read-write_plain_example = read-write_plain 0 reset Address.mepc 0x8000_0004 (omega arith)

can_access_iff_example :
    (can_access Address.satp supervisor true ≡ true)
    ↔ ((1 ≤ 1) × ((true ≡ true) → Address.satp / 1024 ≢ 3))
can_access_iff_example = can_access_iff Address.satp supervisor true (omega arith)
