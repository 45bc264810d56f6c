-- ===== src/Drawfs.antt =====
-- The drawfs kernel module: drawfs/sys/dev/drawfs.
pub mod Proto
pub mod Frame
pub mod Session
pub mod Queue
pub mod Surface
pub mod Reply
pub mod Dispatch
pub mod Inbuf
pub mod Invariant
pub mod Ingest
pub mod Device
pub mod Efifb
mod Tests
