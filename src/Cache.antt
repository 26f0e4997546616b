-- ===== src/Cache.antt =====
-- opencxl/cxl/component/cache_controller.py: the last-level cache of a host or of a device, with
-- its memory ranges, its sets of blocks, and its traffic with the coherency agents.
pub mod Ranges
pub mod Fifo
pub mod Blocks
pub mod Controller
pub mod Agent
pub mod Address
pub mod Lookup
pub mod Replace
pub mod Change
pub mod Traffic
pub mod NoLoss
pub mod ReadWrite
pub mod Progress
pub mod Memory
pub mod Coherent
pub mod Retain
