-- ===== src/Examples.antt =====
-- Concrete runs of the modelled code, and the theorems at concrete inputs, by component.
pub mod Segments
pub mod Pages
pub mod Stores
pub mod Directories
pub mod Rows
pub mod Decoding
pub mod Scrambling
