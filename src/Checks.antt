-- ===== src/Checks.antt =====
-- The checks of a zone before it is opened: libs/kernel_checks.c and libs/check_functions.
pub mod Registry
pub mod Modes
pub mod Search
pub mod Find
pub mod Windows
