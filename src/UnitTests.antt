-- ===== src/UnitTests.antt =====
-- The repository's unit tests of the emulator (device/test_device.c, device/test_ioregs.c) and of a driver's wait
-- (driver/test/test_wait.c).
pub mod Emulator
pub mod IoRegs
pub mod Wait
