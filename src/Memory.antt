-- ===== src/Memory.antt =====
-- core/Memory.cpp: paged RAM, the devices behind it, Sv32 translation and the sized accesses.
pub mod Pages
pub mod Spi
pub mod Uart
pub mod Mmio
pub mod Physical
pub mod Translate
pub mod Access
pub mod Sv32
pub mod Ram
pub mod Word
pub mod Bytes
pub mod Image
pub mod Crossing
pub mod Block
pub mod Driver
pub mod WriteBlock
