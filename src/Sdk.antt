-- ===== src/Sdk.antt =====
-- The public SDK, package ipgw.
pub mod Errors
pub mod Url
pub mod Machine
pub mod Http
pub mod Session
pub mod Discovery
pub mod Form
pub mod LoginTypes
pub mod Challenge
pub mod Activation
pub mod Password
pub mod Qr
pub mod Login
pub mod BuiltIn
pub mod Scene
pub mod Tests
