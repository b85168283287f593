-- ===== src/Device.antt =====
-- The tinySA device: its models, its link, the commands, and the framebuffer (tsanet/device).
pub mod Model
pub mod Link
pub mod Commands
pub mod Parsing
pub mod Version
pub mod Legacy
pub mod Discovery
pub mod Rgb565
pub mod Png
mod Examples
