-- ===== src/Transfer.antt =====
-- Whole transfers: the framework's loops, the correct driver and the emulator together.
pub mod Phase
pub mod Address
pub mod Addresses
pub mod Program
pub mod Execute
pub mod Written
pub mod Write
pub mod Read
pub mod Fetch
pub mod Erase
pub mod Mirror
pub mod RoundTrip
pub mod Interpreted
pub mod Correct
