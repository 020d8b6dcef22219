-- ===== src/Driver.antt =====
-- The drivers (driver/) and what they share: what a driver is to the framework, the child's accesses
-- to the IO registers and pins, the drivers with a jump table and those with an interpreter.
pub mod Interface
pub mod Registers
pub mod Alpha
pub mod Wait
pub mod Bugs
pub mod Foxtrot
pub mod Kilo
