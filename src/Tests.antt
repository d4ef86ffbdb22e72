-- ===== src/Tests.antt =====
-- Tests on a concrete environment, and the theorems at concrete inputs.
pub mod Base
pub mod Vault
mod Net
mod Points
mod Redeem
mod Payment
mod Domain
mod Record
mod Auth
mod Server
mod Routes
mod Platforms
mod Webhook
