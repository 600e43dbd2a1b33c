-- ===== src/Invariant.antt =====
-- Invariants of the machine under every instruction and every round of core/RiscvCpu.cpp: 0 in x0,
-- together with any predicate on the mode and the CSRs that their writers keep.
pub mod Interface
pub mod Safe
pub mod Commands
pub mod Loads
pub mod Registers
pub mod Atomics
pub mod Traps
pub mod Semihosting
pub mod System
pub mod Execute
pub mod Steps
pub mod File
