-- ===== src/Tests.antt =====
-- The development's definitions and theorems at concrete inputs.
pub mod Hdm
pub mod Cache
pub mod Pci
pub mod Binder
pub mod Bytes
pub mod Doe
pub mod Mmio
pub mod HomeAgent
pub mod CxlIo
pub mod MemDcoh
pub mod BitStructure
pub mod MemoryHub
pub mod PacketReader
pub mod CacheBridge
pub mod Router
pub mod CciExecutor
