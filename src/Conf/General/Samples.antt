-- ===== src/Conf/General/Samples.antt =====
-- Configurations of internal/conf for tests.
use Prim.Native.String.{String}
use rtc_simple_server.Base.{true, ℕ, Option, none, some, List, []}
use rtc_simple_server.Conf.Settings.{Settings}
use rtc_simple_server.Conf.Check.{Parsers}
use rtc_simple_server.Conf.General.{Conf, optional}
use rtc_simple_server.Conf.General.Paths.{empty_settings}

-- Parsers that accept all they are asked.
abbrev pub parsers : Parsers
parsers = record {
  compiles = λ s. true;
  is_rtsp_url = λ s. true;
  parse_url = λ s. none;
  split_host_port = λ s. some s;
  is_ip = λ s. true;
}

abbrev pub source_of : String → Settings
source_of source = record empty_settings { source = source }

abbrev pub camera_of : ℕ → Settings
camera_of id = record (source_of "rpiCamera") {
  camera = record empty_settings.camera { cam_id = id };
}

-- A configuration that leaves all to the defaults, but for its paths.
abbrev pub conf_of : List (String × Option Settings) → Conf
conf_of paths = record {
  general = record {
    log_level = 0;
    log_destinations = [];
    log_file = "";
    read_timeout = 0;
    write_timeout = 0;
    read_buffer_count = 0;
    udp_max_payload_size = 0;
    external_authentication_url = "";
    api_address = "";
    metrics_address = "";
    pprof_address = "";
  };
  rtsp = record {
    protocols = [];
    encryption = optional;
    rtsp_address = "";
    rtsps_address = "";
    rtp_address = "";
    rtcp_address = "";
    multicast_ip_range = "";
    multicast_rtp_port = 0;
    multicast_rtcp_port = 0;
    server_key = "";
    server_cert = "";
    auth_methods = [];
  };
  rtmp_address = "";
  rtmps_address = "";
  hls = record {
    hls_address = "";
    hls_server_key = "";
    hls_server_cert = "";
    hls_variant = 0;
    hls_segment_count = 0;
    hls_segment_duration = 0;
    hls_part_duration = 0;
    hls_segment_max_size = 0;
    hls_allow_origin = "";
  };
  webrtc = record {
    webrtc_address = "";
    webrtc_server_key = "";
    webrtc_server_cert = "";
    webrtc_allow_origin = "";
    webrtc_ice_servers = none;
  };
  paths = some paths;
}
