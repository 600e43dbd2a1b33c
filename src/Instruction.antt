-- ===== src/Instruction.antt =====
-- core/instruction/: decoding and execution. `Decode` has the fields of an encoded instruction,
-- the files named after a format have its instructions, `Execute` has the dispatch. The commands
-- are those of a null `instructionOutput`, the pointer that the run loop passes: the branches that
-- fill the report for the graphical interface are left out.
pub mod Decode
pub mod Description
pub mod RType
pub mod Atomic
pub mod IType
pub mod Load
pub mod SType
pub mod BType
pub mod JType
pub mod UType
pub mod Semihosting
pub mod CString
pub mod System
pub mod Execute
pub mod CType
