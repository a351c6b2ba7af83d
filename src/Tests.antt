-- ===== src/Tests.antt =====
-- The theorems at concrete inputs, and runs of the models.
mod Fixtures
mod Service
mod Rtc
mod Core
mod Routing
mod Api
mod Transcode
mod Images
mod Sessions
pub mod Encoding
mod Bus
mod Commands
mod Forward
mod Bot
mod App
mod Capacity
mod Transcoding
