-- ===== src/Examples.antt =====
-- The theorems at concrete inputs, and runs of the definitions.
mod Machines
mod CsrExamples
mod TrapExamples
mod MemoryExamples
mod RunExamples
mod InstructionExamples
mod AssemblerExamples
mod TextExamples
