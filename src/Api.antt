-- ===== src/Api.antt =====
-- internal/api: who may use the API, and what its endpoints do.
pub mod Auth
pub mod Response
pub mod Access
pub mod Handlers
pub mod App
