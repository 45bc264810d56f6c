-- ===== src/Drawfs/Tests.antt =====
-- Runs of the drawfs model at concrete inputs, and the theorems applied at such inputs.
mod Frames
mod Queues
mod Surfaces
mod Writes
mod Devices
mod Framebuffers
