-- ===== src/Tester.antt =====
-- The tester (tester/): the mirror that says what the storage ought to hold, and the test data.
pub mod Mirror
pub mod Data
pub mod Libc
pub mod Stochastic
pub mod Deterministic
pub mod Dib
