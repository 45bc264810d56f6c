-- ===== src/Inputfs.antt =====
-- The inputfs kernel module: inputfs/sys/dev/inputfs.
pub mod Smooth
pub mod Events
pub mod State
pub mod Kbdmux
pub mod Focus
pub mod Attach
pub mod Digitizer
pub mod Keyboard
pub mod Parser
mod Tests
