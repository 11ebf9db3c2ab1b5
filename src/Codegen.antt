-- ===== src/Codegen.antt =====
-- codegen/: the reader of the model language, and what generated simulations run on.
pub mod Generator
pub mod Slices
pub mod Pool
pub mod EventQueue
pub mod Tests
