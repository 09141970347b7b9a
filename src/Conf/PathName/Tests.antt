-- ===== src/Conf/PathName/Tests.antt =====
-- Names that paths can and cannot have.
use rtc_simple_server.Base.{none, some, ◌≡◌, refl, ◌↔◌}
use rtc_simple_server.Conf.PathName.{name_bytes, check_codes, is_valid_path_name, ends_with_slash}
use rtc_simple_server.Conf.PathName.Laws.{IsName, check_codes_iff}

good_name : is_valid_path_name "cam-1/main~" ≡ none
unfolding is_valid_path_name
good_name = refl

bad_end : is_valid_path_name "cam/" ≡ some ends_with_slash
unfolding is_valid_path_name
bad_end = refl

check_codes_iff_example : (check_codes (name_bytes "cam/") ≡ none) ↔ IsName (name_bytes "cam/")
check_codes_iff_example = check_codes_iff (name_bytes "cam/")
