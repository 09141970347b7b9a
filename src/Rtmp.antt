-- ===== src/Rtmp.antt =====
-- The RTMP protocol.
pub mod Reader
pub mod Chunk
pub mod Messages
pub mod Message
pub mod Control
pub mod UserControl
pub mod Media
pub mod Video
pub mod Extended
pub mod Raw
pub mod H264Conf
pub mod RoundTrip
mod Truncated
mod Tests
