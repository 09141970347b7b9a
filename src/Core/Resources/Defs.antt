-- ===== src/Core/Resources/Defs.antt =====
-- internal/core/core.go: the creation of the parts of the server, and the reload of its configuration.
use rtc_simple_server.Base.{
  ◌==◌, if◌then◌else◌, is_some, ℕ, suc, Bool, true, false, not, ◌&&◌, ◌||◌, Option, none, some,
  List, [], ◌∷◌,
}
use rtc_simple_server.Core.Resources.Settings.{
  Setting, CoreConf, Part, part_code, paths, logger, path_manager, rtsp_server, rtsps_server,
  rtmp_server, rtmps_server, hls_server, webrtc_server,
}
use rtc_simple_server.Core.Resources.Inputs.{compared, wanted}

-- A part that was created, the `number`-th: `conf` and `others` are the configuration and the
-- parts there were then, of which it took those of `takes` and `needs`.
pub record Instance : Type 0 where
  pub number : ℕ
  pub conf : CoreConf
  pub others : Part → Option ℕ

-- What goes on outside, the newest first.
pub data CoreEffect : Type 0 where
  closed : Part → CoreEffect
  path_manager_conf_reload : CoreEffect
  api_conf_reload : CoreEffect

-- `manager_paths` are the paths that the path manager was given last, and `api_told` is the
-- configuration that the API was: none once it has handed one to the core itself.
pub record Core : Type 0 where
  pub conf : CoreConf
  pub parts : Part → Option Instance
  pub made : ℕ
  pub sent : List CoreEffect
  pub manager_paths : ℕ
  pub api_told : Option CoreConf

unfoldable pub number_of : Option Instance → Option ℕ
number_of none = none
number_of (some i) = some i.number

unfoldable pub set_part : Part → Option Instance → (Part → Option Instance) → Part → Option Instance
set_part k v parts l = if part_code k == part_code l then v else parts l

pub data Created : Type 0 where
  created : Core → Created
  failed : Part → Core → Created

unfoldable pub create : Part → Core → Core
unfolding number_of set_part
create k p = record p {
  parts =
      set_part k
        (some (record { number = p.made; conf = p.conf; others = λ l. number_of (p.parts l) }))
        p.parts;
  made = suc p.made;
  manager_paths = if part_code k == part_code path_manager then p.conf paths else p.manager_paths;
  api_told = if part_code k == part_code Part.api then some p.conf else p.api_told;
}

-- `createResources` from one part on; `opens` says whether the constructor of a part succeeds.
unfoldable pub create_from : (Part → CoreConf → Bool) → List Part → Core → Created
unfolding create wanted
create_from opens [] p = created p
create_from opens (k ∷ ks) p =
    if wanted k p.conf && not (is_some (p.parts k))
    then (if opens k p.conf then create_from opens ks (create k p) else failed k p)
    else create_from opens ks p

unfoldable pub creation_order : List Part
creation_order =
    logger ∷ Part.metrics ∷ Part.pprof ∷ path_manager ∷ rtsp_server ∷ rtsps_server ∷ rtmp_server
    ∷ rtmps_server ∷ hls_server ∷ webrtc_server ∷ Part.api ∷ []

unfoldable pub create_resources : (Part → CoreConf → Bool) → Core → Created
unfolding create_from creation_order
create_resources opens p = create_from opens creation_order p

-- Whether one of the settings settings_differ, or there is no new configuration.
unfoldable pub settings_differ : List Setting → Option CoreConf → CoreConf → Bool
settings_differ ss none old = true
settings_differ [] (some new) old = false
settings_differ (s ∷ ss) (some new) old = not (new s == old s) || settings_differ ss (some new) old

unfoldable pub close_logger : Option CoreConf → CoreConf → Bool
unfolding settings_differ compared
close_logger new old = settings_differ (compared logger) new old

unfoldable pub close_metrics : Option CoreConf → CoreConf → Bool
unfolding settings_differ compared
close_metrics new old = settings_differ (compared Part.metrics) new old

unfoldable pub close_pprof : Option CoreConf → CoreConf → Bool
unfolding settings_differ compared
close_pprof new old = settings_differ (compared Part.pprof) new old

unfoldable pub close_path_manager : Option CoreConf → CoreConf → Bool
unfolding settings_differ compared close_metrics
close_path_manager new old =
    settings_differ (compared path_manager) new old || close_metrics new old

unfoldable pub close_rtsp_server : Option CoreConf → CoreConf → Bool
unfolding settings_differ compared close_metrics close_path_manager
close_rtsp_server new old =
    settings_differ (compared rtsp_server) new old
    || close_metrics new old
    || close_path_manager new old

unfoldable pub close_rtsps_server : Option CoreConf → CoreConf → Bool
unfolding settings_differ compared close_metrics close_path_manager
close_rtsps_server new old =
    settings_differ (compared rtsps_server) new old
    || close_metrics new old
    || close_path_manager new old

unfoldable pub close_rtmp_server : Option CoreConf → CoreConf → Bool
unfolding settings_differ compared close_metrics close_path_manager
close_rtmp_server new old =
    settings_differ (compared rtmp_server) new old
    || close_metrics new old
    || close_path_manager new old

unfoldable pub close_rtmps_server : Option CoreConf → CoreConf → Bool
unfolding settings_differ compared close_metrics close_path_manager
close_rtmps_server new old =
    settings_differ (compared rtmps_server) new old
    || close_metrics new old
    || close_path_manager new old

unfoldable pub close_hls_server : Option CoreConf → CoreConf → Bool
unfolding settings_differ compared close_path_manager close_metrics
close_hls_server new old =
    settings_differ (compared hls_server) new old
    || close_path_manager new old
    || close_metrics new old

unfoldable pub close_webrtc_server : Option CoreConf → CoreConf → Bool
unfolding settings_differ compared close_metrics close_path_manager
close_webrtc_server new old =
    settings_differ (compared webrtc_server) new old
    || close_metrics new old
    || close_path_manager new old

unfoldable pub close_api : Option CoreConf → CoreConf → Bool
unfolding settings_differ compared close_path_manager close_rtsp_server close_rtsps_server
    close_rtmp_server close_hls_server close_webrtc_server
close_api new old =
    settings_differ (compared Part.api) new old
    || close_path_manager new old
    || close_rtsp_server new old
    || close_rtsps_server new old
    || close_rtmp_server new old
    || close_hls_server new old
    || close_webrtc_server new old

unfoldable pub closes : Part → Option CoreConf → CoreConf → Bool
unfolding close_logger close_metrics close_pprof close_path_manager close_rtsp_server
    close_rtsps_server close_rtmp_server close_rtmps_server close_hls_server close_webrtc_server
    close_api
closes logger new old = close_logger new old
closes Part.metrics new old = close_metrics new old
closes Part.pprof new old = close_pprof new old
closes path_manager new old = close_path_manager new old
closes rtsp_server new old = close_rtsp_server new old
closes rtsps_server new old = close_rtsps_server new old
closes rtmp_server new old = close_rtmp_server new old
closes rtmps_server new old = close_rtmps_server new old
closes hls_server new old = close_hls_server new old
closes webrtc_server new old = close_webrtc_server new old
closes Part.api new old = close_api new old

unfoldable pub close : Part → Core → Core
unfolding set_part
close k p = record p { parts = set_part k none p.parts; sent = closed k ∷ p.sent }

-- The code closes the logger without the test for nil, which Core.Resources.Run makes a panic.
unfoldable pub close_if : Part → Option CoreConf → Core → Core
unfolding closes close
close_if k new p = if closes k new p.conf && is_some (p.parts k) then close k p else p

unfoldable pub close_from : List Part → Option CoreConf → Core → Core
unfolding close_if
close_from [] new p = p
close_from (k ∷ ks) new p = close_from ks new (close_if k new p)

unfoldable pub close_order : List Part
close_order =
    rtsps_server ∷ rtsp_server ∷ path_manager ∷ webrtc_server ∷ hls_server ∷ rtmps_server
    ∷ rtmp_server ∷ Part.pprof ∷ Part.metrics ∷ logger ∷ []

unfoldable pub paths_of : Option CoreConf → ℕ → ℕ
paths_of none old = old
paths_of (some new) old = new paths

-- `p.pathManager.confReload(newConf.Paths)`
unfoldable pub pass_paths : Bool → Option CoreConf → Core → Core
unfolding paths_of
pass_paths b new p =
    if b
    then record p {
      sent = path_manager_conf_reload ∷ p.sent;
      manager_paths = paths_of new p.manager_paths;
    }
    else p

-- `p.api.confReload(newConf)`, for an API that is kept and does not call itself.
unfoldable pub pass_conf : Bool → Bool → Option CoreConf → Core → Core
pass_conf kept called_by_api new p =
    if not kept
    then p
    else if called_by_api
    then record p { api_told = none }
    else record p { sent = api_conf_reload ∷ p.sent; api_told = new }

unfoldable pub close_resources : Option CoreConf → Bool → Core → Core
unfolding pass_paths pass_conf close_from close_order closes close_path_manager settings_differ
close_resources new called_by_api p =
    let q =
      pass_paths (not (close_path_manager new p.conf) && settings_differ (paths ∷ []) new p.conf)
        new p in
    let r =
      pass_conf (is_some (q.parts Part.api) && not (closes Part.api new p.conf)) called_by_api new
        q in
    close_from close_order new (close_from (Part.api ∷ []) new r)

unfoldable pub reload_conf : (Part → CoreConf → Bool) → CoreConf → Bool → Core → Created
unfolding close_resources create_resources
reload_conf opens new called_by_api p =
    let q = close_resources (some new) called_by_api p in
    create_resources opens (record q { conf = new })
