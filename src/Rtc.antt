-- ===== src/Rtc.antt =====
-- internal/rtc: ports, transports, tracks, participants and rooms.
pub mod Ports
pub mod MediaEngine
pub mod Transport
pub mod Node
pub mod Participant
pub mod Room
pub mod Ownership
pub mod Forward
pub mod Tables
