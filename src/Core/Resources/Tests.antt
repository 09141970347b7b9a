-- ===== src/Core/Resources/Tests.antt =====
-- A reload of the configuration of internal/core/core.go.
use rtc_simple_server.Base.{ℕ, ◌≡◌, ◌↔◌, refl, inl, Bool, true, false, Option, none, some, [], ◌∷◌}
use rtc_simple_server.Core.Resources.Settings.{
  Setting, CoreConf, Part, part_code, rtmp_encryption, rtmps_address, logger, path_manager,
  rtsp_server, rtsps_server, rtmp_server, rtmps_server, hls_server, webrtc_server,
}
use rtc_simple_server.Core.Resources.Inputs.{takes, needs, compared, wanted}
use rtc_simple_server.Core.Resources.Defs.{
  Instance, Core, number_of, set_part, Created, created, failed, create, create_from,
  creation_order, create_resources, settings_differ, close_logger, close_metrics, close_pprof,
  close_path_manager, close_rtsp_server, close_rtsps_server, close_rtmp_server, close_rtmps_server,
  close_hls_server, close_webrtc_server, close_api, closes, close, close_if, close_from,
  close_order, pass_paths, pass_conf, close_resources, reload_conf,
}
use rtc_simple_server.Core.Resources.Run.{
  panicked, conf_changed, api_conf_set, interrupt, start_core, core_run,
}
use rtc_simple_server.Core.Resources.Laws.Run.{SoundLife, core_life, start_core_panics}
use rtc_simple_server.Core.Resources.Laws.Watched.{followed, bound}
use rtc_simple_server.Core.Resources.Laws.Made.{Current}
use rtc_simple_server.Core.Resources.Laws.Told.{Informed}
use rtc_simple_server.Core.Resources.Laws.Progress.{UpToDate}
use rtc_simple_server.Core.Resources.Laws.Reload.{Outcome, Known, reload_conf-Outcome}

-- The API is on, and RTMP is served with and without encryption.
abbrev first_conf : CoreConf
first_conf Setting.api = 1
first_conf rtmp_encryption = 1
first_conf s = 0

-- The RTMPS server gets another address.
abbrev second_conf : CoreConf
second_conf Setting.api = 1
second_conf rtmp_encryption = 1
second_conf rtmps_address = 5
second_conf s = 0

abbrev all_open : Part → CoreConf → Bool
all_open k c = true

unfoldable core_of : Created → Core
core_of (created p) = p
core_of (failed k p) = p

unfoldable first_core : Core
unfolding core_of create_resources create_from creation_order create wanted number_of set_part
    part_code
first_core = core_of (
    create_resources all_open (record {
      conf = first_conf;
      parts = λ k. none;
      made = 0;
      sent = [];
      manager_paths = 0;
      api_told = none;
    }))

first_core-UpToDate : UpToDate first_core
unfolding UpToDate Current bound followed takes needs first_core core_of create_resources
    create_from creation_order create wanted number_of set_part part_code
first_core-UpToDate logger = (refl, refl, refl)
first_core-UpToDate Part.metrics = refl
first_core-UpToDate Part.pprof = refl
first_core-UpToDate path_manager = (refl, refl, refl)
first_core-UpToDate rtsp_server = (refl, refl, refl)
first_core-UpToDate rtsps_server = refl
first_core-UpToDate rtmp_server = (refl, refl, refl)
first_core-UpToDate rtmps_server = (refl, refl, refl)
first_core-UpToDate hls_server = (refl, refl, refl)
first_core-UpToDate webrtc_server = (refl, refl, refl)
first_core-UpToDate Part.api = (refl, refl, refl)

first_core-Informed : Informed true first_core
unfolding Informed first_core core_of create_resources create_from creation_order create wanted
    number_of set_part part_code
first_core-Informed = (refl, inl refl)

reload_conf-Outcome_example :
    Outcome all_open second_conf (reload_conf all_open second_conf false first_core)
    × Known false (reload_conf all_open second_conf false first_core)
reload_conf-Outcome_example =
    reload_conf-Outcome all_open second_conf false first_core first_core-UpToDate
      first_core-Informed

abbrev second_core : Core
second_core = core_of (reload_conf all_open second_conf false first_core)

-- The RTMPS server that the API is given, by its number.
abbrev rtmps_server_of_api : Option Instance → Option ℕ
rtmps_server_of_api none = none
rtmps_server_of_api (some i) = i.others rtmps_server

-- After a new address of the RTMPS server, the API still has the server that was closed.
stale_rtmps_server :
    (rtmps_server_of_api (second_core.parts Part.api) ≡ some 4)
    × (number_of (second_core.parts rtmps_server) ≡ some 8)
unfolding reload_conf close_resources first_core core_of create_resources create_from creation_order
    create wanted number_of set_part part_code pass_paths pass_conf close_from close_if close closes
    close_order close_api close_logger close_metrics close_pprof close_path_manager
    close_rtsp_server close_rtsps_server close_rtmp_server close_rtmps_server close_hls_server
    close_webrtc_server compared settings_differ
stale_rtmps_server = (refl, refl)

core_life_example : SoundLife all_open (
    core_run all_open
      (conf_changed (some second_conf) ∷ api_conf_set first_conf ∷ interrupt ∷ [])
      (start_core all_open true true (some first_conf)))
core_life_example =
    core_life all_open true true (some first_conf)
      (conf_changed (some second_conf) ∷ api_conf_set first_conf ∷ interrupt ∷ [])

-- The file of the log cannot be opened.
abbrev no_logger : Part → CoreConf → Bool
no_logger logger c = false
no_logger k c = true

start_core_panics_example :
    (start_core no_logger true true (some first_conf) ≡ panicked first_conf)
    ↔ (no_logger logger first_conf ≡ false)
start_core_panics_example = start_core_panics no_logger true true first_conf
