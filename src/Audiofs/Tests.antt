-- ===== src/Audiofs/Tests.antt =====
-- Tests and examples of the audiofs kernel module.
mod Examples
mod Queues
mod Streams
mod Formats
mod Connections
mod Commands
