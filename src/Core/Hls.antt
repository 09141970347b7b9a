-- ===== src/Core/Hls.antt =====
-- internal/core/hls_muxer.go and hls_server.go: the conversion of paths into HLS.
pub mod Muxer
pub mod Server
