-- ===== src/Tests.antt =====
-- The program on concrete inputs.
pub mod Machine
pub mod Scenes
pub mod Server
pub mod Versioned
pub mod Registry
pub mod Meddled
pub mod ConfigServer
pub mod Types
mod Provisioning
mod Leaving
mod Controlling
mod Clients
mod Conflicts
mod Together
