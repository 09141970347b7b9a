-- ===== src/Core/Resources/Laws/Watched.antt =====
-- Which settings keep the parts of internal/core/core.go, and which other parts.
use rtc_simple_server.Base.{
  ◌==◌, ==_iff, Bool-cases, ◌≡◌, refl, subst, inl, inr, Bool, true, false, ◌&&◌, ◌||◌, some, List,
  [], ◌∷◌, map, arith,
}
use rtc_simple_server.Core.Resources.Settings.{
  Setting, setting_code, CoreConf, Part, setting_code_eq, log_destinations, log_file, read_timeout,
  write_timeout, read_buffer_count, udp_max_payload_size, rtsp_disable, encryption, rtsp_address,
  rtmp_disable, rtmp_encryption, hls_disable, webrtc_disable, logger, path_manager, rtsp_server,
  rtsps_server, rtmp_server, rtmps_server, hls_server, webrtc_server,
}
use rtc_simple_server.Core.Resources.Inputs.{takes, needs, compared, wanted}
use rtc_simple_server.Core.Resources.Defs.{
  settings_differ, close_logger, close_metrics, close_pprof, close_path_manager, close_rtsp_server,
  close_rtsps_server, close_rtmp_server, close_rtmps_server, close_hls_server, close_webrtc_server,
  close_api, closes,
}

-- The settings that a part takes and is created anew for. The level of the logger is not among
-- them, and new paths are passed on to the path manager.
unfoldable pub followed : Part → List Setting
unfolding takes
followed logger = log_destinations ∷ log_file ∷ []
followed path_manager =
    rtsp_address ∷ read_timeout ∷ write_timeout ∷ read_buffer_count ∷ udp_max_payload_size ∷ []
followed Part.metrics = takes Part.metrics
followed Part.pprof = takes Part.pprof
followed rtsp_server = takes rtsp_server
followed rtsps_server = takes rtsps_server
followed rtmp_server = takes rtmp_server
followed rtmps_server = takes rtmps_server
followed hls_server = takes hls_server
followed webrtc_server = takes webrtc_server
followed Part.api = takes Part.api

-- The parts that a part is given and is created anew with. The RTMPS server, which the API is
-- given, is not among them.
unfoldable pub bound : Part → List Part
unfolding needs
bound logger = needs logger
bound path_manager = needs path_manager
bound Part.metrics = needs Part.metrics
bound Part.pprof = needs Part.pprof
bound rtsp_server = needs rtsp_server
bound rtsps_server = needs rtsps_server
bound rtmp_server = needs rtmp_server
bound rtmps_server = needs rtmps_server
bound hls_server = needs hls_server
bound webrtc_server = needs webrtc_server
bound Part.api =
    path_manager ∷ rtsp_server ∷ rtsps_server ∷ rtmp_server ∷ hls_server ∷ webrtc_server ∷ []

unfoldable has_setting : Setting → List Setting → Bool
has_setting s [] = false
has_setting s (t ∷ ts) = setting_code t == setting_code s || has_setting s ts

unfoldable covers : List Setting → List Setting → Bool
unfolding has_setting
covers ws [] = true
covers ws (s ∷ ss) = has_setting s ws && covers ws ss

settings_differ-has_setting :
    (ws : List Setting) (s : Setting) (new old : CoreConf)
    → settings_differ ws (some new) old ≡ false
    → has_setting s ws ≡ true
    → new s ≡ old s
unfolding settings_differ has_setting
settings_differ-has_setting [] s new old d h = ground (arith, h)
settings_differ-has_setting (w ∷ ws) s new old d h =
    elim (Bool-cases (setting_code w == setting_code s)) [
      | inl e ↦
          let same = setting_code_eq w s ((==_iff (setting_code w) (setting_code s)).0 e) in
          subst (λ t. new t ≡ old t) same ((==_iff (new w) (old w)).0 (ground (arith, d)))
      | inr e ↦ settings_differ-has_setting ws s new old (ground (arith, d)) (ground (arith, e, h))
    ]

settings_differ-map :
    (ss ws : List Setting) (new old : CoreConf)
    → covers ws ss ≡ true
    → settings_differ ws (some new) old ≡ false
    → map old ss ≡ map new ss
unfolding covers
settings_differ-map [] ws new old c d = refl
settings_differ-map (s ∷ ss) ws new old c d = cc (
  settings_differ-has_setting ws s new old d (ground (arith, c)),
  settings_differ-map ss ws new old (ground (arith, c)) d,
)

or-left : (a b : Bool) → a || b ≡ false → a ≡ false
or-left a b h = ground (arith, h)

-- A part that is kept is kept by settings that stay what they are.
pub closes-followed :
    (k : Part) (new old : CoreConf)
    → closes k (some new) old ≡ false
    → map old (followed k) ≡ map new (followed k)
unfolding closes close_logger close_metrics close_pprof close_path_manager close_rtsp_server
    close_rtsps_server close_rtmp_server close_rtmps_server close_hls_server close_webrtc_server
    close_api compared followed takes covers has_setting setting_code
closes-followed logger new old h =
    settings_differ-map (followed logger) (compared logger) new old refl h
closes-followed Part.metrics new old h =
    settings_differ-map (followed Part.metrics) (compared Part.metrics) new old refl h
closes-followed Part.pprof new old h =
    settings_differ-map (followed Part.pprof) (compared Part.pprof) new old refl h
closes-followed path_manager new old h =
    settings_differ-map (followed path_manager) (compared path_manager) new old refl (or-left _ _ h)
closes-followed rtsp_server new old h =
    settings_differ-map (followed rtsp_server) (compared rtsp_server) new old refl
      (or-left _ _ (or-left _ _ h))
closes-followed rtsps_server new old h =
    settings_differ-map (followed rtsps_server) (compared rtsps_server) new old refl
      (or-left _ _ (or-left _ _ h))
closes-followed rtmp_server new old h =
    settings_differ-map (followed rtmp_server) (compared rtmp_server) new old refl
      (or-left _ _ (or-left _ _ h))
closes-followed rtmps_server new old h =
    settings_differ-map (followed rtmps_server) (compared rtmps_server) new old refl
      (or-left _ _ (or-left _ _ h))
closes-followed hls_server new old h =
    settings_differ-map (followed hls_server) (compared hls_server) new old refl
      (or-left _ _ (or-left _ _ h))
closes-followed webrtc_server new old h =
    settings_differ-map (followed webrtc_server) (compared webrtc_server) new old refl
      (or-left _ _ (or-left _ _ h))
closes-followed Part.api new old h =
    settings_differ-map (followed Part.api) (compared Part.api) new old refl
      (or-left _ _ (or-left _ _ (or-left _ _ (or-left _ _ (or-left _ _ (or-left _ _ h))))))

-- The settings that say whether there is a part are among those that keep it.
pub closes-wanted :
    (k : Part) (new old : CoreConf) → closes k (some new) old ≡ false → wanted k old ≡ wanted k new
unfolding closes close_logger close_metrics close_pprof close_path_manager close_rtsp_server
    close_rtsps_server close_rtmp_server close_rtmps_server close_hls_server close_webrtc_server
    close_api compared wanted has_setting setting_code
closes-wanted logger new old h = refl
closes-wanted path_manager new old h = refl
closes-wanted Part.metrics new old h =
    cc (settings_differ-has_setting (compared Part.metrics) Setting.metrics new old h refl)
closes-wanted Part.pprof new old h =
    cc (settings_differ-has_setting (compared Part.pprof) Setting.pprof new old h refl)
closes-wanted rtsp_server new old h = cc (
  settings_differ-has_setting (compared rtsp_server) rtsp_disable new old
      (or-left _ _ (or-left _ _ h)) refl,
  settings_differ-has_setting (compared rtsp_server) encryption new old
      (or-left _ _ (or-left _ _ h)) refl,
)
closes-wanted rtsps_server new old h = cc (
  settings_differ-has_setting (compared rtsps_server) rtsp_disable new old
      (or-left _ _ (or-left _ _ h)) refl,
  settings_differ-has_setting (compared rtsps_server) encryption new old
      (or-left _ _ (or-left _ _ h)) refl,
)
closes-wanted rtmp_server new old h = cc (
  settings_differ-has_setting (compared rtmp_server) rtmp_disable new old
      (or-left _ _ (or-left _ _ h)) refl,
  settings_differ-has_setting (compared rtmp_server) rtmp_encryption new old
      (or-left _ _ (or-left _ _ h)) refl,
)
closes-wanted rtmps_server new old h = cc (
  settings_differ-has_setting (compared rtmps_server) rtmp_disable new old
      (or-left _ _ (or-left _ _ h)) refl,
  settings_differ-has_setting (compared rtmps_server) rtmp_encryption new old
      (or-left _ _ (or-left _ _ h)) refl,
)
closes-wanted hls_server new old h = cc (
    settings_differ-has_setting (compared hls_server) hls_disable new old
      (or-left _ _ (or-left _ _ h)) refl)
closes-wanted webrtc_server new old h = cc (
    settings_differ-has_setting (compared webrtc_server) webrtc_disable new old
      (or-left _ _ (or-left _ _ h)) refl)
closes-wanted Part.api new old h = cc (
    settings_differ-has_setting (compared Part.api) Setting.api new old
      (or-left _ _ (or-left _ _ (or-left _ _ (or-left _ _ (or-left _ _ (or-left _ _ h)))))) refl)
