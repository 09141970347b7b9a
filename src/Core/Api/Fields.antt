-- ===== src/Core/Api/Fields.antt =====
-- internal/core/api.go: the requests that change the configuration, with what they may set.
use Prim.Native.String.{String}
use rtc_simple_server.Base.{ℕ, Bool, Option, none, some, List}
use rtc_simple_server.Conf.PathConf.{Credentials}
use rtc_simple_server.Conf.Settings.{Float, Camera, Settings}
use rtc_simple_server.Conf.General.{
  Protocol, AuthMethod, LogDestination, Encryption, GeneralConf, RtspConf, HlsConf, WebrtcConf,
  Conf,
}

-- The value of a field in the request, or the one that there was.
abbrev pub or_old {ℓ} : {A : Type ℓ} → Option A → A → A
or_old none old = old
or_old (some new) old = new

-- What `generateStructWithOptionalFields` makes of `PathConf`: each field may be missing. The regular
-- expression has no name in JSON.
pub record CredentialsFields : Type 0 where
  pub ips : Option (List String)
  pub user : Option String
  pub pass : Option String

pub record CameraFields : Type 0 where
  pub cam_id : Option ℕ
  pub width : Option ℕ
  pub height : Option ℕ
  pub contrast : Option Float
  pub saturation : Option Float
  pub sharpness : Option Float
  pub fps : Option ℕ
  pub idr_period : Option ℕ
  pub bitrate : Option ℕ
  pub profile : Option String
  pub level : Option String
  pub text_overlay : Option String
  pub others : Option ℕ

pub record PathFields : Type 0 where
  pub source : Option String
  pub source_on_demand : Option Bool
  pub source_on_demand_start_timeout : Option ℕ
  pub source_on_demand_close_after : Option ℕ
  pub source_redirect : Option String
  pub disable_publisher_override : Option Bool
  pub fallback : Option String
  pub run_on_init : Option String
  pub run_on_demand : Option String
  pub run_on_demand_start_timeout : Option ℕ
  pub run_on_demand_close_after : Option ℕ
  pub run_on_ready : Option String
  pub camera : CameraFields
  pub publish : CredentialsFields
  pub read : CredentialsFields

unfoldable pub fill_credentials : CredentialsFields → Credentials → Credentials
fill_credentials i c = record c {
  ips = or_old i.ips c.ips;
  user = or_old i.user c.user;
  pass = or_old i.pass c.pass;
}

unfoldable pub fill_camera_fields : CameraFields → Camera → Camera
fill_camera_fields i c = record c {
  cam_id = or_old i.cam_id c.cam_id;
  width = or_old i.width c.width;
  height = or_old i.height c.height;
  contrast = or_old i.contrast c.contrast;
  saturation = or_old i.saturation c.saturation;
  sharpness = or_old i.sharpness c.sharpness;
  fps = or_old i.fps c.fps;
  idr_period = or_old i.idr_period c.idr_period;
  bitrate = or_old i.bitrate c.bitrate;
  profile = or_old i.profile c.profile;
  level = or_old i.level c.level;
  text_overlay = or_old i.text_overlay c.text_overlay;
  others = or_old i.others c.others;
}

-- `fillStruct` on a path.
unfoldable pub fill_path : PathFields → Settings → Settings
unfolding fill_credentials fill_camera_fields
fill_path i s = record s {
  source = or_old i.source s.source;
  source_on_demand = or_old i.source_on_demand s.source_on_demand;
  source_on_demand_start_timeout =
      or_old i.source_on_demand_start_timeout s.source_on_demand_start_timeout;
  source_on_demand_close_after =
      or_old i.source_on_demand_close_after s.source_on_demand_close_after;
  source_redirect = or_old i.source_redirect s.source_redirect;
  disable_publisher_override = or_old i.disable_publisher_override s.disable_publisher_override;
  fallback = or_old i.fallback s.fallback;
  run_on_init = or_old i.run_on_init s.run_on_init;
  run_on_demand = or_old i.run_on_demand s.run_on_demand;
  run_on_demand_start_timeout = or_old i.run_on_demand_start_timeout s.run_on_demand_start_timeout;
  run_on_demand_close_after = or_old i.run_on_demand_close_after s.run_on_demand_close_after;
  run_on_ready = or_old i.run_on_ready s.run_on_ready;
  camera = fill_camera_fields i.camera s.camera;
  publish = fill_credentials i.publish s.publish;
  read = fill_credentials i.read s.read;
}

-- The same for `Conf`, without its paths.
pub record GeneralFields : Type 0 where
  pub log_level : Option ℕ
  pub log_destinations : Option (List LogDestination)
  pub log_file : Option String
  pub read_timeout : Option ℕ
  pub write_timeout : Option ℕ
  pub read_buffer_count : Option ℕ
  pub udp_max_payload_size : Option ℕ
  pub external_authentication_url : Option String
  pub api_address : Option String
  pub metrics_address : Option String
  pub pprof_address : Option String

pub record RtspFields : Type 0 where
  pub protocols : Option (List Protocol)
  pub encryption : Option Encryption
  pub rtsp_address : Option String
  pub rtsps_address : Option String
  pub rtp_address : Option String
  pub rtcp_address : Option String
  pub multicast_ip_range : Option String
  pub multicast_rtp_port : Option ℕ
  pub multicast_rtcp_port : Option ℕ
  pub server_key : Option String
  pub server_cert : Option String
  pub auth_methods : Option (List AuthMethod)

pub record HlsFields : Type 0 where
  pub hls_address : Option String
  pub hls_server_key : Option String
  pub hls_server_cert : Option String
  pub hls_variant : Option ℕ
  pub hls_segment_count : Option ℕ
  pub hls_segment_duration : Option ℕ
  pub hls_part_duration : Option ℕ
  pub hls_segment_max_size : Option ℕ
  pub hls_allow_origin : Option String

pub record WebrtcFields : Type 0 where
  pub webrtc_address : Option String
  pub webrtc_server_key : Option String
  pub webrtc_server_cert : Option String
  pub webrtc_allow_origin : Option String
  pub webrtc_ice_servers : Option (Option (List String))

pub record ConfFields : Type 0 where
  pub general : GeneralFields
  pub rtsp : RtspFields
  pub rtmp_address : Option String
  pub rtmps_address : Option String
  pub hls : HlsFields
  pub webrtc : WebrtcFields

unfoldable pub fill_general_fields : GeneralFields → GeneralConf → GeneralConf
fill_general_fields i c = record c {
  log_level = or_old i.log_level c.log_level;
  log_destinations = or_old i.log_destinations c.log_destinations;
  log_file = or_old i.log_file c.log_file;
  read_timeout = or_old i.read_timeout c.read_timeout;
  write_timeout = or_old i.write_timeout c.write_timeout;
  read_buffer_count = or_old i.read_buffer_count c.read_buffer_count;
  udp_max_payload_size = or_old i.udp_max_payload_size c.udp_max_payload_size;
  external_authentication_url = or_old i.external_authentication_url c.external_authentication_url;
  api_address = or_old i.api_address c.api_address;
  metrics_address = or_old i.metrics_address c.metrics_address;
  pprof_address = or_old i.pprof_address c.pprof_address;
}

unfoldable pub fill_rtsp_fields : RtspFields → RtspConf → RtspConf
fill_rtsp_fields i c = record c {
  protocols = or_old i.protocols c.protocols;
  encryption = or_old i.encryption c.encryption;
  rtsp_address = or_old i.rtsp_address c.rtsp_address;
  rtsps_address = or_old i.rtsps_address c.rtsps_address;
  rtp_address = or_old i.rtp_address c.rtp_address;
  rtcp_address = or_old i.rtcp_address c.rtcp_address;
  multicast_ip_range = or_old i.multicast_ip_range c.multicast_ip_range;
  multicast_rtp_port = or_old i.multicast_rtp_port c.multicast_rtp_port;
  multicast_rtcp_port = or_old i.multicast_rtcp_port c.multicast_rtcp_port;
  server_key = or_old i.server_key c.server_key;
  server_cert = or_old i.server_cert c.server_cert;
  auth_methods = or_old i.auth_methods c.auth_methods;
}

unfoldable pub fill_hls_fields : HlsFields → HlsConf → HlsConf
fill_hls_fields i c = record c {
  hls_address = or_old i.hls_address c.hls_address;
  hls_server_key = or_old i.hls_server_key c.hls_server_key;
  hls_server_cert = or_old i.hls_server_cert c.hls_server_cert;
  hls_variant = or_old i.hls_variant c.hls_variant;
  hls_segment_count = or_old i.hls_segment_count c.hls_segment_count;
  hls_segment_duration = or_old i.hls_segment_duration c.hls_segment_duration;
  hls_part_duration = or_old i.hls_part_duration c.hls_part_duration;
  hls_segment_max_size = or_old i.hls_segment_max_size c.hls_segment_max_size;
  hls_allow_origin = or_old i.hls_allow_origin c.hls_allow_origin;
}

unfoldable pub fill_webrtc_fields : WebrtcFields → WebrtcConf → WebrtcConf
fill_webrtc_fields i c = record c {
  webrtc_address = or_old i.webrtc_address c.webrtc_address;
  webrtc_server_key = or_old i.webrtc_server_key c.webrtc_server_key;
  webrtc_server_cert = or_old i.webrtc_server_cert c.webrtc_server_cert;
  webrtc_allow_origin = or_old i.webrtc_allow_origin c.webrtc_allow_origin;
  webrtc_ice_servers = or_old i.webrtc_ice_servers c.webrtc_ice_servers;
}

-- `fillStruct` on the configuration.
unfoldable pub fill_conf : ConfFields → Conf → Conf
unfolding fill_general_fields fill_rtsp_fields fill_hls_fields fill_webrtc_fields
fill_conf i c = record c {
  general = fill_general_fields i.general c.general;
  rtsp = fill_rtsp_fields i.rtsp c.rtsp;
  rtmp_address = or_old i.rtmp_address c.rtmp_address;
  rtmps_address = or_old i.rtmps_address c.rtmps_address;
  hls = fill_hls_fields i.hls c.hls;
  webrtc = fill_webrtc_fields i.webrtc c.webrtc;
}
