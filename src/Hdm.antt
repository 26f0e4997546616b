-- ===== src/Hdm.antt =====
-- opencxl/cxl/component/hdm_decoder.py: the host-managed device memory decoders. `Hdm.Decoder` has
-- the decoders of a device and of a switch, `Hdm.Manager` the managers that hold them.
pub mod Decoder
pub mod Manager
pub mod Interleave
pub mod Aliasing
pub mod Translate
pub mod Route
