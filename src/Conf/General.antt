-- ===== src/Conf/General.antt =====
-- internal/conf/conf.go: the configuration, but for its loading.
use Prim.Native.Nat.{bit_and}
use Prim.Native.String.{String}
use rtc_simple_server.Base.{
  ltb, ◌==◌, ℕ, ◌+◌, ◌%◌, Bool, true, false, not, ◌&&◌, ◌||◌, Option, none, some, List, [], ◌∷◌,
}
use rtc_simple_server.Conf.Settings.{Settings, or_number, or_text}
pub mod Paths
pub mod Accepted
pub mod Filled
pub mod Samples
pub mod Cameras
pub mod Power
pub mod Tests

pub data Protocol : Type 0 where
  udp : Protocol
  udp_multicast : Protocol
  tcp : Protocol

pub data Encryption : Type 0 where
  no_encryption : Encryption
  optional : Encryption
  strict : Encryption

pub data AuthMethod : Type 0 where
  basic : AuthMethod
  digest : AuthMethod

pub data LogDestination : Type 0 where
  stdout : LogDestination
  file : LogDestination
  syslog : LogDestination

-- `Conf`, in parts; an int is a word of 64 bits, a slice or map that can be nil an option. The fields
-- that the check neither reads nor fills in are left out.
pub record GeneralConf : Type 0 where
  pub log_level : ℕ
  pub log_destinations : List LogDestination
  pub log_file : String
  pub read_timeout : ℕ
  pub write_timeout : ℕ
  pub read_buffer_count : ℕ
  pub udp_max_payload_size : ℕ
  pub external_authentication_url : String
  pub api_address : String
  pub metrics_address : String
  pub pprof_address : String

pub record RtspConf : Type 0 where
  pub protocols : List Protocol
  pub encryption : Encryption
  pub rtsp_address : String
  pub rtsps_address : String
  pub rtp_address : String
  pub rtcp_address : String
  pub multicast_ip_range : String
  pub multicast_rtp_port : ℕ
  pub multicast_rtcp_port : ℕ
  pub server_key : String
  pub server_cert : String
  pub auth_methods : List AuthMethod

pub record HlsConf : Type 0 where
  pub hls_address : String
  pub hls_server_key : String
  pub hls_server_cert : String
  pub hls_variant : ℕ
  pub hls_segment_count : ℕ
  pub hls_segment_duration : ℕ
  pub hls_part_duration : ℕ
  pub hls_segment_max_size : ℕ
  pub hls_allow_origin : String

pub record WebrtcConf : Type 0 where
  pub webrtc_address : String
  pub webrtc_server_key : String
  pub webrtc_server_cert : String
  pub webrtc_allow_origin : String
  pub webrtc_ice_servers : Option (List String)

pub record Conf : Type 0 where
  pub general : GeneralConf
  pub rtsp : RtspConf
  pub rtmp_address : String
  pub rtmps_address : String
  pub hls : HlsConf
  pub webrtc : WebrtcConf
  pub paths : Option (List (String × Option Settings))

abbrev pub or_list {ℓ} : {A : Type ℓ} → List A → List A → List A
or_list default [] = default
or_list default (x ∷ xs) = x ∷ xs

abbrev pub is_udp : Protocol → Bool
is_udp udp = true
is_udp udp_multicast = false
is_udp tcp = false

abbrev pub is_multicast : Protocol → Bool
is_multicast udp = false
is_multicast udp_multicast = true
is_multicast tcp = false

abbrev pub any {ℓ} : {A : Type ℓ} → (A → Bool) → List A → Bool
any f [] = false
any f (x ∷ xs) = f x || any f xs

abbrev pub is_strict : Encryption → Bool
is_strict no_encryption = false
is_strict optional = false
is_strict strict = true

abbrev pub two_to_63 : ℕ
two_to_63 = 9223372036854775808

-- `x > limit` between ints, for a limit that is not negative.
abbrev pub exceeds : ℕ → ℕ → Bool
exceeds limit x = ltb x two_to_63 && ltb limit x

-- `x & (x - 1) != 0`
abbrev pub has_two_bits : ℕ → Bool
has_two_bits x = not (bit_and x ((x + 18446744073709551615) % 18446744073709551616) == 0)

unfoldable pub fill_general : GeneralConf → GeneralConf
fill_general c = record c {
  log_level = or_number 2 c.log_level;
  log_destinations = or_list (stdout ∷ []) c.log_destinations;
  log_file = or_text "mediamtx.log" c.log_file;
  read_timeout = or_number 10000000000 c.read_timeout;
  write_timeout = or_number 10000000000 c.write_timeout;
  read_buffer_count = or_number 512 c.read_buffer_count;
  udp_max_payload_size = or_number 1472 c.udp_max_payload_size;
  api_address = or_text "127.0.0.1:9997" c.api_address;
  metrics_address = or_text "127.0.0.1:9998" c.metrics_address;
  pprof_address = or_text "127.0.0.1:9999" c.pprof_address;
}

unfoldable pub fill_rtsp : RtspConf → RtspConf
fill_rtsp c = record c {
  protocols = or_list (udp ∷ udp_multicast ∷ tcp ∷ []) c.protocols;
  rtsp_address = or_text ":8554" c.rtsp_address;
  rtsps_address = or_text ":8322" c.rtsps_address;
  rtp_address = or_text ":8000" c.rtp_address;
  rtcp_address = or_text ":8001" c.rtcp_address;
  multicast_ip_range = or_text "224.1.0.0/16" c.multicast_ip_range;
  multicast_rtp_port = or_number 8002 c.multicast_rtp_port;
  multicast_rtcp_port = or_number 8003 c.multicast_rtcp_port;
  server_key = or_text "server.key" c.server_key;
  server_cert = or_text "server.crt" c.server_cert;
  auth_methods = or_list (basic ∷ digest ∷ []) c.auth_methods;
}

-- `low_latency` stands for the constant MuxerVariantLowLatency of gohlslib.
unfoldable pub fill_hls : ℕ → HlsConf → HlsConf
fill_hls low_latency c = record c {
  hls_address = or_text ":8888" c.hls_address;
  hls_server_key = or_text "server.key" c.hls_server_key;
  hls_server_cert = or_text "server.crt" c.hls_server_cert;
  hls_variant = or_number low_latency c.hls_variant;
  hls_segment_count = or_number 7 c.hls_segment_count;
  hls_segment_duration = or_number 1000000000 c.hls_segment_duration;
  hls_part_duration = or_number 200000000 c.hls_part_duration;
  hls_segment_max_size = or_number 52428800 c.hls_segment_max_size;
  hls_allow_origin = or_text "*" c.hls_allow_origin;
}

unfoldable pub fill_webrtc : WebrtcConf → WebrtcConf
fill_webrtc c = record c {
  webrtc_address = or_text ":8889" c.webrtc_address;
  webrtc_server_key = or_text "server.key" c.webrtc_server_key;
  webrtc_server_cert = or_text "server.crt" c.webrtc_server_cert;
  webrtc_allow_origin = or_text "*" c.webrtc_allow_origin;
  webrtc_ice_servers = elim c.webrtc_ice_servers [
    | none ↦ some ("stun:stun.l.google.com:19302" ∷ [])
    | some l ↦ some l
  ];
}
