-- ===== src/State.antt =====
-- The state of the simulator, and commands over it: `RiscvCpu` (core/include/core/RiscvCpu.h)
-- with its `CsrUnit` and the `Memory` singleton (core/include/core/Memory.h) in one record, and
-- a monad for code that changes the state and may leave by an exception.
mod Defs
mod Monad
pub use Defs.*
pub use Monad.*
