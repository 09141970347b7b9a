-- ===== src/Rtmp/Raw.antt =====
-- internal/rtmp/rawmessage: messages, split into chunks and put together again.
pub mod Reader
pub mod Writer
pub mod Rounds
pub mod Deliver
pub mod Pieces
pub mod Rest
pub mod First
pub mod Start
pub mod Messages
pub mod Exchange
pub mod Sequence
pub mod Stale
mod Tests
