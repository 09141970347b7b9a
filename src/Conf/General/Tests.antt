-- ===== src/Conf/General/Tests.antt =====
-- Configurations of internal/conf that are accepted and refused.
use Prim.Native.String.{String}
use text.Mathlib.TextEquality.{eq_iff}
use rtc_simple_server.Base.{
  ◌<◌, ◌^◌, ◌&&◌, false, ℕ, ◌≡◌, refl, ◌≢◌, false, Option, none, some, List, [], ◌∷◌, arith,
}
use rtc_simple_server.Base.Text.{lookup}
use rtc_simple_server.Conf.PathName.{is_valid_path_name}
use rtc_simple_server.Conf.Settings.{Camera, Settings, seen}
use rtc_simple_server.Conf.Check.{useless_run_on_demand, same_camera}
use rtc_simple_server.Conf.General.{Conf, exceeds, any, is_strict, is_udp, is_multicast}
use rtc_simple_server.Conf.General.Samples.{parsers, source_of, camera_of, conf_of}
use rtc_simple_server.Conf.General.Filled
use rtc_simple_server.Conf.General.Power.{check_conf_general}
use rtc_simple_server.Conf.General.Paths.{
  resolve_all, insert_sorted, sorted_names, settings_of, or_empty, check_conf, invalid_path,
  refused, accepted,
}
use rtc_simple_server.Conf.General.Accepted.{check_conf_paths, IsNamed}
use rtc_simple_server.Conf.General.Cameras.{check_conf_cameras}
use rtc_simple_server.Core.Path.Invariant.Defs.{IsChecked}

abbrev camera_number : Camera → ℕ
camera_number c = c.cam_id

abbrev confs : List (String × Option Settings)
confs = ("second", some (camera_of 1)) ∷ ("all", none) ∷ ("first", some (camera_of 0)) ∷ []

names : sorted_names (resolve_all confs) ≡ "first" ∷ "second" ∷ "~^.*$" ∷ []
unfolding sorted_names insert_sorted resolve_all
names = refl

filled : Conf
unfolding check_conf
filled = elim (check_conf parsers 3 (conf_of confs)) [ refused e ↦ conf_of [] | accepted c ↦ c ]

filled_lem : check_conf parsers 3 (conf_of confs) ≡ accepted filled
unfolding filled check_conf is_valid_path_name
filled_lem = refl

filled_at : String → Settings
unfolding filled lookup
filled_at name = settings_of (lookup name (or_empty filled.paths))

first_lem : lookup "first" (or_empty filled.paths) ≡ some (some (filled_at "first"))
unfolding filled filled_at check_conf is_valid_path_name
first_lem = refl

second_lem : lookup "second" (or_empty filled.paths) ≡ some (some (filled_at "second"))
unfolding filled filled_at check_conf is_valid_path_name
second_lem = refl

first_source : (filled_at "first").source ≡ "rpiCamera"
unfolding filled filled_at check_conf is_valid_path_name
first_source = refl

second_source : (filled_at "second").source ≡ "rpiCamera"
unfolding filled filled_at check_conf is_valid_path_name
second_source = refl

names_differ : ◌≢◌ {A = String} "first" "second"
names_differ e = ground (arith, (eq_iff "first" "second").1 e)

-- The alias is resolved, and a path that is a nil pointer is filled in.
all_source : (filled_at "~^.*$").source ≡ "publisher"
unfolding filled filled_at check_conf is_valid_path_name
all_source = refl

same_camera_refused :
    check_conf parsers 3
      (conf_of (("first", some (camera_of 0)) ∷ ("second", some (camera_of 0)) ∷ []))
    ≡ refused (invalid_path (same_camera "second"))
unfolding check_conf is_valid_path_name
same_camera_refused = refl

command_refused :
    check_conf parsers 3
      (conf_of (("live", some (record (source_of "rtsp://host") { run_on_demand = "run" })) ∷ []))
    ≡ refused (invalid_path useless_run_on_demand)
unfolding check_conf is_valid_path_name
command_refused = refl

-- A size below zero, as a word of 64 bits, is let through.
negative_size : exceeds 1472 18446744073709551615 ≡ false
negative_size = refl

check_conf_cameras_example : (filled_at "first").camera.cam_id ≢ (filled_at "second").camera.cam_id
check_conf_cameras_example =
    check_conf_cameras parsers 3 (conf_of confs) filled "first" "second" (filled_at "first")
      (filled_at "second") filled_lem first_lem second_lem names_differ first_source second_source

check_conf_paths_example :
    (t : Settings) × (some (filled_at "first") ≡ some t)
    × IsChecked (seen camera_number t)
    × IsNamed "first"
check_conf_paths_example =
    check_conf_paths parsers 3 (conf_of confs) filled camera_number "first"
      (some (filled_at "first")) filled_lem first_lem

filled_count : filled.general.read_buffer_count < 18446744073709551616
unfolding filled check_conf is_valid_path_name
filled_count = omega arith

check_conf_general_example :
    ((k : ℕ) × (filled.general.read_buffer_count ≡ 2 ^ k))
    × (exceeds 1472 filled.general.udp_max_payload_size ≡ false)
    × ((is_strict filled.rtsp.encryption && any is_udp filled.rtsp.protocols) ≡ false)
    × ((is_strict filled.rtsp.encryption && any is_multicast filled.rtsp.protocols) ≡ false)
check_conf_general_example =
    check_conf_general parsers 3 (conf_of confs) filled filled_lem filled_count
