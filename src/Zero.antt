-- ===== src/Zero.antt =====
-- The register x0 of core/RiscvCpu.cpp holds 0, whatever an instruction does.
pub mod Steps
