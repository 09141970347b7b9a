-- ===== src/Core/Resources/Inputs.antt =====
-- internal/core/core.go: what each part of the server is given, when it is wanted, and which settings
-- close it.
use rtc_simple_server.Base.{◌==◌, Bool, true, not, ◌&&◌, ◌||◌, List, [], ◌∷◌}
use rtc_simple_server.Core.Resources.Settings.{
  Setting, CoreConf, Part, log_level, log_destinations, log_file, read_timeout, write_timeout,
  read_buffer_count, udp_max_payload_size, external_authentication_url, metrics_address,
  pprof_address, run_on_connect, run_on_connect_restart, rtsp_disable, protocols, encryption,
  rtsp_address, rtsps_address, rtp_address, rtcp_address, multicast_ip_range, multicast_rtp_port,
  multicast_rtcp_port, server_key, server_cert, auth_methods, rtmp_disable, rtmp_address,
  rtmp_encryption, rtmps_address, rtmp_server_key, rtmp_server_cert, hls_disable, hls_address,
  hls_encryption, hls_server_key, hls_server_cert, hls_always_remux, hls_variant, hls_segment_count,
  hls_segment_duration, hls_part_duration, hls_segment_max_size, hls_allow_origin,
  hls_trusted_proxies, hls_directory, webrtc_disable, webrtc_address, webrtc_encryption,
  webrtc_server_key, webrtc_server_cert, webrtc_allow_origin, webrtc_trusted_proxies,
  webrtc_ice_servers, webrtc_ice_host_nat1_to1_ips, webrtc_ice_udp_mux_address,
  webrtc_ice_tcp_mux_address, api_address, paths, logger, path_manager, rtsp_server, rtsps_server,
  rtmp_server, rtmps_server, hls_server, webrtc_server,
}

-- The settings that the constructor of a part is given, as arguments of their own or in what is
-- computed of them. The API is given the whole configuration besides, which the core keeps as
-- `api_told`.
unfoldable pub takes : Part → List Setting
takes logger = log_level ∷ log_destinations ∷ log_file ∷ []
takes Part.metrics = metrics_address ∷ read_timeout ∷ []
takes Part.pprof = pprof_address ∷ read_timeout ∷ []
takes path_manager =
    rtsp_address ∷ read_timeout ∷ write_timeout ∷ read_buffer_count ∷ udp_max_payload_size ∷ paths
    ∷ []
takes rtsp_server =
    external_authentication_url ∷ rtsp_address ∷ auth_methods ∷ read_timeout ∷ write_timeout
    ∷ read_buffer_count ∷ rtp_address ∷ rtcp_address ∷ multicast_ip_range ∷ multicast_rtp_port
    ∷ multicast_rtcp_port ∷ protocols ∷ run_on_connect ∷ run_on_connect_restart ∷ []
takes rtsps_server =
    external_authentication_url ∷ rtsps_address ∷ auth_methods ∷ read_timeout ∷ write_timeout
    ∷ read_buffer_count ∷ server_cert ∷ server_key ∷ rtsp_address ∷ protocols ∷ run_on_connect
    ∷ run_on_connect_restart ∷ []
takes rtmp_server =
    external_authentication_url ∷ rtmp_address ∷ read_timeout ∷ write_timeout ∷ read_buffer_count
    ∷ rtsp_address ∷ run_on_connect ∷ run_on_connect_restart ∷ []
takes rtmps_server =
    external_authentication_url ∷ rtmps_address ∷ read_timeout ∷ write_timeout ∷ read_buffer_count
    ∷ rtmp_server_cert ∷ rtmp_server_key ∷ rtsp_address ∷ run_on_connect ∷ run_on_connect_restart
    ∷ []
takes hls_server =
    hls_address ∷ hls_encryption ∷ hls_server_key ∷ hls_server_cert ∷ external_authentication_url
    ∷ hls_always_remux ∷ hls_variant ∷ hls_segment_count ∷ hls_segment_duration ∷ hls_part_duration
    ∷ hls_segment_max_size ∷ hls_allow_origin ∷ hls_trusted_proxies ∷ hls_directory ∷ read_timeout
    ∷ read_buffer_count ∷ []
takes webrtc_server =
    external_authentication_url ∷ webrtc_address ∷ webrtc_encryption ∷ webrtc_server_key
    ∷ webrtc_server_cert ∷ webrtc_allow_origin ∷ webrtc_trusted_proxies ∷ webrtc_ice_servers
    ∷ read_timeout ∷ read_buffer_count ∷ webrtc_ice_host_nat1_to1_ips ∷ webrtc_ice_udp_mux_address
    ∷ webrtc_ice_tcp_mux_address ∷ []
takes Part.api = api_address ∷ read_timeout ∷ []

-- The parts that it is given.
unfoldable pub needs : Part → List Part
needs logger = []
needs Part.metrics = []
needs Part.pprof = []
needs path_manager = Part.metrics ∷ []
needs rtsp_server = Part.metrics ∷ path_manager ∷ []
needs rtsps_server = Part.metrics ∷ path_manager ∷ []
needs rtmp_server = Part.metrics ∷ path_manager ∷ []
needs rtmps_server = Part.metrics ∷ path_manager ∷ []
needs hls_server = path_manager ∷ Part.metrics ∷ []
needs webrtc_server = path_manager ∷ Part.metrics ∷ []
needs Part.api =
    path_manager ∷ rtsp_server ∷ rtsps_server ∷ rtmp_server ∷ rtmps_server ∷ hls_server
    ∷ webrtc_server ∷ []

-- Whether a configuration has a part: an encryption is 0 for none, 1 for optional, 2 for strict.
unfoldable pub wanted : Part → CoreConf → Bool
wanted logger c = true
wanted Part.metrics c = not (c Setting.metrics == 0)
wanted Part.pprof c = not (c Setting.pprof == 0)
wanted path_manager c = true
wanted rtsp_server c = c rtsp_disable == 0 && (c encryption == 0 || c encryption == 1)
wanted rtsps_server c = c rtsp_disable == 0 && (c encryption == 2 || c encryption == 1)
wanted rtmp_server c = c rtmp_disable == 0 && (c rtmp_encryption == 0 || c rtmp_encryption == 1)
wanted rtmps_server c = c rtmp_disable == 0 && (c rtmp_encryption == 2 || c rtmp_encryption == 1)
wanted hls_server c = c hls_disable == 0
wanted webrtc_server c = c webrtc_disable == 0
wanted Part.api c = not (c Setting.api == 0)

-- The settings of which a change closes a part.
unfoldable pub compared : Part → List Setting
compared logger = log_destinations ∷ log_file ∷ []
compared Part.metrics = Setting.metrics ∷ metrics_address ∷ read_timeout ∷ []
compared Part.pprof = Setting.pprof ∷ pprof_address ∷ read_timeout ∷ []
compared path_manager =
    rtsp_address ∷ read_timeout ∷ write_timeout ∷ read_buffer_count ∷ udp_max_payload_size ∷ []
compared rtsp_server =
    rtsp_disable ∷ encryption ∷ external_authentication_url ∷ rtsp_address ∷ auth_methods
    ∷ read_timeout ∷ write_timeout ∷ read_buffer_count ∷ protocols ∷ rtp_address ∷ rtcp_address
    ∷ multicast_ip_range ∷ multicast_rtp_port ∷ multicast_rtcp_port ∷ rtsp_address ∷ protocols
    ∷ run_on_connect ∷ run_on_connect_restart ∷ []
compared rtsps_server =
    rtsp_disable ∷ encryption ∷ external_authentication_url ∷ rtsps_address ∷ auth_methods
    ∷ read_timeout ∷ write_timeout ∷ read_buffer_count ∷ server_cert ∷ server_key ∷ rtsp_address
    ∷ protocols ∷ run_on_connect ∷ run_on_connect_restart ∷ []
compared rtmp_server =
    rtmp_disable ∷ rtmp_encryption ∷ rtmp_address ∷ external_authentication_url ∷ read_timeout
    ∷ write_timeout ∷ read_buffer_count ∷ rtsp_address ∷ run_on_connect ∷ run_on_connect_restart
    ∷ []
compared rtmps_server =
    rtmp_disable ∷ rtmp_encryption ∷ rtmps_address ∷ external_authentication_url ∷ read_timeout
    ∷ write_timeout ∷ read_buffer_count ∷ rtmp_server_cert ∷ rtmp_server_key ∷ rtsp_address
    ∷ run_on_connect ∷ run_on_connect_restart ∷ []
compared hls_server =
    hls_disable ∷ hls_address ∷ hls_encryption ∷ hls_server_key ∷ hls_server_cert
    ∷ external_authentication_url ∷ hls_always_remux ∷ hls_variant ∷ hls_segment_count
    ∷ hls_segment_duration ∷ hls_part_duration ∷ hls_segment_max_size ∷ hls_allow_origin
    ∷ hls_trusted_proxies ∷ hls_directory ∷ read_timeout ∷ read_buffer_count ∷ []
compared webrtc_server =
    webrtc_disable ∷ external_authentication_url ∷ webrtc_address ∷ webrtc_encryption
    ∷ webrtc_server_key ∷ webrtc_server_cert ∷ webrtc_allow_origin ∷ webrtc_trusted_proxies
    ∷ webrtc_ice_servers ∷ read_timeout ∷ read_buffer_count ∷ webrtc_ice_host_nat1_to1_ips
    ∷ webrtc_ice_udp_mux_address ∷ webrtc_ice_tcp_mux_address ∷ []
compared Part.api = Setting.api ∷ api_address ∷ read_timeout ∷ []
