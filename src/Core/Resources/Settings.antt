-- ===== src/Core/Resources/Settings.antt =====
-- The settings of `Conf` in internal/conf/conf.go that the parts of internal/core/core.go take, and
-- the parts.
use rtc_simple_server.Base.{
  zero, ℕ, suc, ◌≡◌, refl, ap, sym, ◌∙◌, Option, none, some, List, [], ◌∷◌,
}

pub data Setting : Type 0 where
  log_level log_destinations log_file read_timeout write_timeout : Setting
  read_buffer_count udp_max_payload_size external_authentication_url metrics metrics_address :
      Setting
  pprof pprof_address run_on_connect run_on_connect_restart rtsp_disable : Setting
  protocols encryption rtsp_address rtsps_address rtp_address : Setting
  rtcp_address multicast_ip_range multicast_rtp_port multicast_rtcp_port server_key : Setting
  server_cert auth_methods rtmp_disable rtmp_address rtmp_encryption : Setting
  rtmps_address rtmp_server_key rtmp_server_cert hls_disable hls_address : Setting
  hls_encryption hls_server_key hls_server_cert hls_always_remux hls_variant : Setting
  hls_segment_count hls_segment_duration hls_part_duration hls_segment_max_size hls_allow_origin :
      Setting
  hls_trusted_proxies hls_directory webrtc_disable webrtc_address webrtc_encryption : Setting
  webrtc_server_key webrtc_server_cert webrtc_allow_origin webrtc_trusted_proxies
        webrtc_ice_servers :
      Setting
  webrtc_ice_host_nat1_to1_ips webrtc_ice_udp_mux_address webrtc_ice_tcp_mux_address api
        api_address :
      Setting
  paths : Setting

unfoldable pub setting_code : Setting → ℕ
setting_code log_level = 0
setting_code log_destinations = 1
setting_code log_file = 2
setting_code read_timeout = 3
setting_code write_timeout = 4
setting_code read_buffer_count = 5
setting_code udp_max_payload_size = 6
setting_code external_authentication_url = 7
setting_code metrics = 8
setting_code metrics_address = 9
setting_code pprof = 10
setting_code pprof_address = 11
setting_code run_on_connect = 12
setting_code run_on_connect_restart = 13
setting_code rtsp_disable = 14
setting_code protocols = 15
setting_code encryption = 16
setting_code rtsp_address = 17
setting_code rtsps_address = 18
setting_code rtp_address = 19
setting_code rtcp_address = 20
setting_code multicast_ip_range = 21
setting_code multicast_rtp_port = 22
setting_code multicast_rtcp_port = 23
setting_code server_key = 24
setting_code server_cert = 25
setting_code auth_methods = 26
setting_code rtmp_disable = 27
setting_code rtmp_address = 28
setting_code rtmp_encryption = 29
setting_code rtmps_address = 30
setting_code rtmp_server_key = 31
setting_code rtmp_server_cert = 32
setting_code hls_disable = 33
setting_code hls_address = 34
setting_code hls_encryption = 35
setting_code hls_server_key = 36
setting_code hls_server_cert = 37
setting_code hls_always_remux = 38
setting_code hls_variant = 39
setting_code hls_segment_count = 40
setting_code hls_segment_duration = 41
setting_code hls_part_duration = 42
setting_code hls_segment_max_size = 43
setting_code hls_allow_origin = 44
setting_code hls_trusted_proxies = 45
setting_code hls_directory = 46
setting_code webrtc_disable = 47
setting_code webrtc_address = 48
setting_code webrtc_encryption = 49
setting_code webrtc_server_key = 50
setting_code webrtc_server_cert = 51
setting_code webrtc_allow_origin = 52
setting_code webrtc_trusted_proxies = 53
setting_code webrtc_ice_servers = 54
setting_code webrtc_ice_host_nat1_to1_ips = 55
setting_code webrtc_ice_udp_mux_address = 56
setting_code webrtc_ice_tcp_mux_address = 57
setting_code api = 58
setting_code api_address = 59
setting_code paths = 60

-- A configuration by its settings. What is only compared is a number, equal values being equal
-- numbers, as `reflect.DeepEqual` has it; a flag is on where it is not 0, and an encryption is
-- numbered as in internal/conf/encryption.go.
abbrev pub CoreConf : Type 0
CoreConf = Setting → ℕ

pub data Part : Type 0 where
  logger metrics pprof path_manager rtsp_server rtsps_server : Part
  rtmp_server rtmps_server hls_server webrtc_server api : Part

unfoldable pub part_code : Part → ℕ
part_code logger = 0
part_code Part.metrics = 1
part_code Part.pprof = 2
part_code path_manager = 3
part_code rtsp_server = 4
part_code rtsps_server = 5
part_code rtmp_server = 6
part_code rtmps_server = 7
part_code hls_server = 8
part_code webrtc_server = 9
part_code Part.api = 10

unfoldable at {ℓ} : {A : Type ℓ} → ℕ → List A → Option A
at n [] = none
at zero (x ∷ xs) = some x
at (suc n) (x ∷ xs) = at n xs

all_settings : List Setting
all_settings =
    log_level ∷ log_destinations ∷ log_file ∷ read_timeout ∷ write_timeout ∷ read_buffer_count
    ∷ udp_max_payload_size ∷ external_authentication_url ∷ Setting.metrics ∷ metrics_address
    ∷ Setting.pprof ∷ pprof_address ∷ run_on_connect ∷ run_on_connect_restart ∷ rtsp_disable
    ∷ protocols ∷ encryption ∷ rtsp_address ∷ rtsps_address ∷ rtp_address ∷ rtcp_address
    ∷ multicast_ip_range ∷ multicast_rtp_port ∷ multicast_rtcp_port ∷ server_key ∷ server_cert
    ∷ auth_methods ∷ rtmp_disable ∷ rtmp_address ∷ rtmp_encryption ∷ rtmps_address ∷ rtmp_server_key
    ∷ rtmp_server_cert ∷ hls_disable ∷ hls_address ∷ hls_encryption ∷ hls_server_key
    ∷ hls_server_cert ∷ hls_always_remux ∷ hls_variant ∷ hls_segment_count ∷ hls_segment_duration
    ∷ hls_part_duration ∷ hls_segment_max_size ∷ hls_allow_origin ∷ hls_trusted_proxies
    ∷ hls_directory ∷ webrtc_disable ∷ webrtc_address ∷ webrtc_encryption ∷ webrtc_server_key
    ∷ webrtc_server_cert ∷ webrtc_allow_origin ∷ webrtc_trusted_proxies ∷ webrtc_ice_servers
    ∷ webrtc_ice_host_nat1_to1_ips ∷ webrtc_ice_udp_mux_address ∷ webrtc_ice_tcp_mux_address
    ∷ Setting.api ∷ api_address ∷ paths ∷ []

all_parts : List Part
all_parts =
    logger ∷ Part.metrics ∷ Part.pprof ∷ path_manager ∷ rtsp_server ∷ rtsps_server ∷ rtmp_server
    ∷ rtmps_server ∷ hls_server ∷ webrtc_server ∷ Part.api ∷ []

at-setting_code : (s : Setting) → at (setting_code s) all_settings ≡ some s
unfolding at all_settings setting_code
at-setting_code log_level = refl
at-setting_code log_destinations = refl
at-setting_code log_file = refl
at-setting_code read_timeout = refl
at-setting_code write_timeout = refl
at-setting_code read_buffer_count = refl
at-setting_code udp_max_payload_size = refl
at-setting_code external_authentication_url = refl
at-setting_code metrics = refl
at-setting_code metrics_address = refl
at-setting_code pprof = refl
at-setting_code pprof_address = refl
at-setting_code run_on_connect = refl
at-setting_code run_on_connect_restart = refl
at-setting_code rtsp_disable = refl
at-setting_code protocols = refl
at-setting_code encryption = refl
at-setting_code rtsp_address = refl
at-setting_code rtsps_address = refl
at-setting_code rtp_address = refl
at-setting_code rtcp_address = refl
at-setting_code multicast_ip_range = refl
at-setting_code multicast_rtp_port = refl
at-setting_code multicast_rtcp_port = refl
at-setting_code server_key = refl
at-setting_code server_cert = refl
at-setting_code auth_methods = refl
at-setting_code rtmp_disable = refl
at-setting_code rtmp_address = refl
at-setting_code rtmp_encryption = refl
at-setting_code rtmps_address = refl
at-setting_code rtmp_server_key = refl
at-setting_code rtmp_server_cert = refl
at-setting_code hls_disable = refl
at-setting_code hls_address = refl
at-setting_code hls_encryption = refl
at-setting_code hls_server_key = refl
at-setting_code hls_server_cert = refl
at-setting_code hls_always_remux = refl
at-setting_code hls_variant = refl
at-setting_code hls_segment_count = refl
at-setting_code hls_segment_duration = refl
at-setting_code hls_part_duration = refl
at-setting_code hls_segment_max_size = refl
at-setting_code hls_allow_origin = refl
at-setting_code hls_trusted_proxies = refl
at-setting_code hls_directory = refl
at-setting_code webrtc_disable = refl
at-setting_code webrtc_address = refl
at-setting_code webrtc_encryption = refl
at-setting_code webrtc_server_key = refl
at-setting_code webrtc_server_cert = refl
at-setting_code webrtc_allow_origin = refl
at-setting_code webrtc_trusted_proxies = refl
at-setting_code webrtc_ice_servers = refl
at-setting_code webrtc_ice_host_nat1_to1_ips = refl
at-setting_code webrtc_ice_udp_mux_address = refl
at-setting_code webrtc_ice_tcp_mux_address = refl
at-setting_code api = refl
at-setting_code api_address = refl
at-setting_code paths = refl

at-part_code : (k : Part) → at (part_code k) all_parts ≡ some k
unfolding at all_parts part_code
at-part_code logger = refl
at-part_code metrics = refl
at-part_code pprof = refl
at-part_code path_manager = refl
at-part_code rtsp_server = refl
at-part_code rtsps_server = refl
at-part_code rtmp_server = refl
at-part_code rtmps_server = refl
at-part_code hls_server = refl
at-part_code webrtc_server = refl
at-part_code api = refl

some-injective {ℓ} : {A : Type ℓ} → (x y : A) → some x ≡ some y → x ≡ y
some-injective x y h = cc h

pub setting_code_eq : (s t : Setting) → setting_code s ≡ setting_code t → s ≡ t
setting_code_eq s t h =
    some-injective s t (sym (at-setting_code s) ∙ ap (λ n. at n all_settings) h ∙ at-setting_code t)

pub part_code_eq : (k l : Part) → part_code k ≡ part_code l → k ≡ l
part_code_eq k l h =
    some-injective k l (sym (at-part_code k) ∙ ap (λ n. at n all_parts) h ∙ at-part_code l)
