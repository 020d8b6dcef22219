-- ===== src/Device.antt =====
-- The device emulator (device/), one part to a module: the constants of device_emu.h, the cursor,
-- cache and data store, the CPU register update, the state that a trap handler works on, the
-- deadline, the message parser, the pins, and the loop that hands traps out.
pub mod Constants
pub mod Store
pub mod IoRegs
pub mod Rig
pub mod Deadline
pub mod Parser
pub mod Gpio
pub mod Traps
