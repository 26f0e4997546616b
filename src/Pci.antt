-- ===== src/Pci.antt =====
-- The PCI part: bus, device and function numbers, and the routing table of a switch.
pub mod Bdf
pub mod Routing
