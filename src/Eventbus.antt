-- ===== src/Eventbus.antt =====
-- internal/eventbus
pub mod Rpc
pub mod Json
pub mod Decoding
pub mod Encoding
pub mod Bus
pub mod Router
