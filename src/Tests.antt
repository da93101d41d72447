-- ===== src/Tests.antt =====
-- Tests of the definitions, and the theorems applied to concrete inputs.
pub mod Hosts
mod Hooks
mod Breakpoints
mod Code
mod Registries
mod Values
mod Monitors
mod Hardware
mod Slots
mod Files
mod Scripts
mod Foreign
