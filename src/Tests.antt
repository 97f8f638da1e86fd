-- ===== src/Tests.antt =====
-- Runs at concrete inputs, of the modelled code and of the theorems about it.
pub mod World
pub mod Authz
pub mod Token
pub mod ClientAuth
pub mod Masks
pub mod Persistence
pub mod Refreshes
pub mod Device
pub mod Logout
pub mod Roles
pub mod Registration
pub mod Mfa
pub mod Account
pub mod Consent
pub mod ShortUrl
