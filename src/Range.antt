-- ===== src/Range.antt =====
-- The C++ types of the state as ranges of natural numbers (core/include/core/*.h), and that the
-- parts of the simulator stay inside them.
pub mod Defs
pub mod Members
pub mod Card
pub mod Devices
pub mod Ram
pub mod Traps
pub mod Words
pub mod Fields
