-- ===== src/Core/Api/Tests.antt =====
-- Requests of internal/core/api.go that are accepted and refused.
use text.Mathlib.Text.{◌==◌ as str_eq}
use rtc_simple_server.Base.{Bool-cases, ◌≡◌, refl, inl, inr, none, some, List, [], ◌∷◌, arith}
use rtc_simple_server.Base.Text.{lookup}
use rtc_simple_server.Conf.General.{Conf}
use rtc_simple_server.Conf.General.Paths.{refused, accepted, or_empty, check_conf}
use rtc_simple_server.Conf.General.Filled.{filled_at}
use rtc_simple_server.Core.Api.Fields.{PathFields}
use rtc_simple_server.Core.Api.Config.{
  Api, status_ok, bad_request, param_name, ConfigRequest, paths_add, paths_edit, paths_delete,
  handle,
}
use rtc_simple_server.Conf.PathName.{is_valid_path_name}
use rtc_simple_server.Conf.General.Samples.{parsers, source_of, conf_of}
use rtc_simple_server.Core.Api.Laws.Outcome.{Outcome}
use rtc_simple_server.Core.Api.Laws.Settled.{IsPlain, handle_all, SameButOrder, handle_all-other}

abbrev loaded : Conf
loaded = conf_of (("cam", some (source_of "")) ∷ ("~a.*", none) ∷ [])

first_conf : Conf
unfolding check_conf
first_conf = elim (check_conf parsers 3 loaded) [ refused e ↦ loaded | accepted c ↦ c ]

first_conf_lem : check_conf parsers 3 loaded ≡ accepted first_conf
unfolding first_conf check_conf is_valid_path_name
first_conf_lem = refl

abbrev first : Api
first = record { conf = first_conf; sent = [] }

abbrev no_path_fields : PathFields
no_path_fields = record {
  source = none;
  source_on_demand = none;
  source_on_demand_start_timeout = none;
  source_on_demand_close_after = none;
  source_redirect = none;
  disable_publisher_override = none;
  fallback = none;
  run_on_init = none;
  run_on_demand = none;
  run_on_demand_start_timeout = none;
  run_on_demand_close_after = none;
  run_on_ready = none;
  camera = record {
    cam_id = none;
    width = none;
    height = none;
    contrast = none;
    saturation = none;
    sharpness = none;
    fps = none;
    idr_period = none;
    bitrate = none;
    profile = none;
    level = none;
    text_overlay = none;
    others = none;
  };
  publish = record { ips = none; user = none; pass = none };
  read = record { ips = none; user = none; pass = none };
}

abbrev requests : List ConfigRequest
requests =
    paths_add "/door" (some (record no_path_fields { source = some "udp://1" }))
    ∷ paths_edit "/door" (some no_path_fields)
    ∷ paths_delete "/hall"
    ∷ paths_add "cam" none
    ∷ []

loaded-IsPlain : IsPlain (or_empty loaded.paths)
unfolding IsPlain lookup
loaded-IsPlain name = elim (Bool-cases (str_eq "cam" name)) [
  | inl same ↦ ground (arith, same)
  | inr other ↦ ground (arith, other)
]

handle_all-other_example :
    SameButOrder
      (lookup "cam" (or_empty (handle_all parsers 3 requests first).conf.paths))
      (filled_at "cam" (lookup "cam" (or_empty loaded.paths)))
unfolding param_name
handle_all-other_example =
    handle_all-other parsers 3 loaded requests first "cam" loaded-IsPlain first_conf_lem refl refl
      refl

-- A path that is there already is not added.
added_twice : (handle parsers 3 (paths_add "/cam" (some no_path_fields)) first).0 ≡ bad_request
unfolding handle param_name first_conf check_conf is_valid_path_name lookup
added_twice = refl

deleted : (handle parsers 3 (paths_delete "/cam") first).0 ≡ status_ok
unfolding handle param_name first_conf check_conf is_valid_path_name lookup
deleted = refl
