-- ===== src/Examples.antt =====
-- The programs in examples/ of the repository.
pub mod Concat
pub mod C
pub mod Cpp
