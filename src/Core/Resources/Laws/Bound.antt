-- ===== src/Core/Resources/Laws/Bound.antt =====
-- A part of internal/core/core.go that is kept keeps the parts that it uses.
use rtc_simple_server.Base.{◌≡◌, refl, Bool, false, ◌||◌, some, List, [], ◌∷◌, arith}
use rtc_simple_server.Core.Resources.Settings.{
  CoreConf, Part, logger, path_manager, rtsp_server, rtsps_server, rtmp_server, rtmps_server,
  hls_server, webrtc_server,
}
use rtc_simple_server.Core.Resources.Defs.{
  settings_differ, close_metrics, close_path_manager, close_rtsp_server, close_rtsps_server,
  close_rtmp_server, close_rtmps_server, close_hls_server, close_webrtc_server, close_api, closes,
}
use rtc_simple_server.Core.Resources.Inputs.{needs, compared}
use rtc_simple_server.Core.Resources.Laws.Watched.{bound}

unfoldable pub closes_any : List Part → CoreConf → CoreConf → Bool
unfolding closes
closes_any [] new old = false
closes_any (k ∷ ks) new old = closes k (some new) old || closes_any ks new old

path_manager-bound :
    (new old : CoreConf)
    → close_path_manager (some new) old ≡ false
    → (close_metrics (some new) old || false) ≡ false
unfolding close_path_manager
path_manager-bound new old h = ground (arith, h)

rtsp_server-bound :
    (new old : CoreConf)
    → close_rtsp_server (some new) old ≡ false
    → (close_metrics (some new) old || (close_path_manager (some new) old || false)) ≡ false
unfolding close_rtsp_server
rtsp_server-bound new old h = ground (arith, h)

rtsps_server-bound :
    (new old : CoreConf)
    → close_rtsps_server (some new) old ≡ false
    → (close_metrics (some new) old || (close_path_manager (some new) old || false)) ≡ false
unfolding close_rtsps_server
rtsps_server-bound new old h = ground (arith, h)

rtmp_server-bound :
    (new old : CoreConf)
    → close_rtmp_server (some new) old ≡ false
    → (close_metrics (some new) old || (close_path_manager (some new) old || false)) ≡ false
unfolding close_rtmp_server
rtmp_server-bound new old h = ground (arith, h)

rtmps_server-bound :
    (new old : CoreConf)
    → close_rtmps_server (some new) old ≡ false
    → (close_metrics (some new) old || (close_path_manager (some new) old || false)) ≡ false
unfolding close_rtmps_server
rtmps_server-bound new old h = ground (arith, h)

hls_server-bound :
    (new old : CoreConf)
    → close_hls_server (some new) old ≡ false
    → (close_path_manager (some new) old || (close_metrics (some new) old || false)) ≡ false
unfolding close_hls_server
hls_server-bound new old h = ground (arith, h)

webrtc_server-bound :
    (new old : CoreConf)
    → close_webrtc_server (some new) old ≡ false
    → (close_path_manager (some new) old || (close_metrics (some new) old || false)) ≡ false
unfolding close_webrtc_server
webrtc_server-bound new old h = ground (arith, h)

or-rest :
    (d a b c e f g : Bool)
    → (((((d || a) || b) || c) || e) || f) || g ≡ false
    → (a || (b || (c || (e || (f || (g || false)))))) ≡ false
or-rest d a b c e f g h = ground (arith, h)

api-bound :
    (new old : CoreConf)
    → close_api (some new) old ≡ false
    → closes_any (bound Part.api) new old ≡ false
unfolding close_api closes closes_any bound
api-bound new old h =
    or-rest (settings_differ (compared Part.api) (some new) old) (close_path_manager (some new) old)
      (close_rtsp_server (some new) old) (close_rtsps_server (some new) old)
      (close_rtmp_server (some new) old) (close_hls_server (some new) old)
      (close_webrtc_server (some new) old) h

pub closes-bound :
    (k : Part) (new old : CoreConf)
    → closes k (some new) old ≡ false
    → closes_any (bound k) new old ≡ false
unfolding closes closes_any bound needs
closes-bound logger new old h = refl
closes-bound Part.metrics new old h = refl
closes-bound Part.pprof new old h = refl
closes-bound path_manager new old h = path_manager-bound new old h
closes-bound rtsp_server new old h = rtsp_server-bound new old h
closes-bound rtsps_server new old h = rtsps_server-bound new old h
closes-bound rtmp_server new old h = rtmp_server-bound new old h
closes-bound rtmps_server new old h = rtmps_server-bound new old h
closes-bound hls_server new old h = hls_server-bound new old h
closes-bound webrtc_server new old h = webrtc_server-bound new old h
closes-bound Part.api new old h = api-bound new old h
