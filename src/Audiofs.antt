-- ===== src/Audiofs.antt =====
-- The audiofs kernel module: audiofs/sys/dev/audiofs.
pub mod Ring
pub mod Format
pub mod Codec
pub mod Commands
pub mod Softc
pub mod Interrupt
pub mod Stream
pub mod Control
mod Tests
