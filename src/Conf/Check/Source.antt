-- ===== src/Conf/Check/Source.antt =====
-- internal/conf/path.go: the beginning of `checkAndFillMissing`, up to the switch over the source.
use Prim.Native.String.{String}
use text.Mathlib.Text.{◌==◌ as str_eq, starts_with}
use rtc_simple_server.Base.{
  ◌==◌, if◌then◌else◌, is_some, ℕ, Bool, not, ◌&&◌, ◌||◌, Option, none, some, List, [], ◌∷◌,
}
use rtc_simple_server.Conf.PathName.{is_valid_path_name}
use rtc_simple_server.Conf.Settings.{
  or_one, Camera, Settings, or_number, or_text, drop_chars, begins_with_tilde,
}
use rtc_simple_server.Conf.Check.{
  Checked, ◌>>◌, pure, refuse, has_half_user, Parsers, Context, invalid_name, invalid_regexp,
  regexp_with_source, invalid_url, missing_credential, invalid_ip, missing_redirect, same_camera,
  invalid_source, bad, good,
}

-- A name is that of a path or a regular expression.
unfoldable pub check_name : Parsers → String → Settings → Checked Settings
check_name p name s =
    if begins_with_tilde name
    then (if p.compiles (drop_chars 1 name)
        then good (record s { regexp = some (drop_chars 1 name) })
        else bad invalid_regexp)
    else elim (is_valid_path_name name) [ some e ↦ bad (invalid_name e) | none ↦ good s ]

abbrev pub is_rtsp : String → Bool
is_rtsp source = starts_with source "rtsp://" || starts_with source "rtsps://"

abbrev pub is_rtmp : String → Bool
is_rtmp source = starts_with source "rtmp://" || starts_with source "rtmps://"

abbrev pub is_hls : String → Bool
is_hls source = starts_with source "http://" || starts_with source "https://"

unfoldable pub check_rtsp : Parsers → Settings → Checked Settings
check_rtsp p s = do
  refuse (is_some s.regexp) regexp_with_source
  refuse (not (p.is_rtsp_url s.source)) invalid_url
  pure s

unfoldable pub check_rtmp : Parsers → Settings → Checked Settings
check_rtmp p s = do
  refuse (is_some s.regexp) regexp_with_source
  elim (p.parse_url s.source) [
    | none ↦ bad invalid_url
    | some u ↦ if has_half_user u then bad missing_credential else good s
  ]

unfoldable pub check_hls : Parsers → Settings → Checked Settings
check_hls p s = do
  refuse (is_some s.regexp) regexp_with_source
  elim (p.parse_url s.source) [
    | none ↦ bad invalid_url
    | some u ↦
        if not (str_eq u.scheme "http") && not (str_eq u.scheme "https")
        then bad invalid_url
        else if has_half_user u
        then bad missing_credential
        else good s
  ]

unfoldable pub check_udp : Parsers → Settings → Checked Settings
check_udp p s = do
  refuse (is_some s.regexp) regexp_with_source
  elim (p.split_host_port (drop_chars 6 s.source)) [
    | none ↦ bad invalid_url
    | some host ↦ if p.is_ip host then good s else bad (invalid_ip host)
  ]

unfoldable pub check_redirect : Parsers → Settings → Checked Settings
check_redirect p s = do
  refuse (str_eq s.source_redirect "") missing_redirect
  refuse (not (p.is_rtsp_url s.source_redirect)) invalid_url
  pure s

-- The name of another path that uses the same camera; a name has one path, so the pointers differ
-- where the names do.
unfoldable pub same_camera_as : String → ℕ → List (String × Option Settings) → Option String
same_camera_as name id [] = none
same_camera_as name id ((other, none) ∷ rest) = same_camera_as name id rest
same_camera_as name id ((other, some s) ∷ rest) =
    let later = same_camera_as name id rest in
    if not (str_eq other name) && str_eq s.source "rpiCamera" && s.camera.cam_id == id
    then some other
    else later

unfoldable pub fill_camera : Camera → Camera
fill_camera c = record c {
  width = or_number 1920 c.width;
  height = or_number 1080 c.height;
  contrast = or_one c.contrast;
  saturation = or_one c.saturation;
  sharpness = or_one c.sharpness;
  fps = or_number 30 c.fps;
  idr_period = or_number 60 c.idr_period;
  bitrate = or_number 1000000 c.bitrate;
  profile = or_text "main" c.profile;
  level = or_text "4.1" c.level;
  text_overlay = or_text "%Y-%m-%d %H:%M:%S - MediaMTX" c.text_overlay;
}

unfoldable pub check_camera : Context → String → Settings → Checked Settings
unfolding same_camera_as fill_camera
check_camera conf name s = do
  refuse (is_some s.regexp) regexp_with_source
  elim (same_camera_as name s.camera.cam_id conf.paths) [
    | some other ↦ bad (same_camera other)
    | none ↦ good (record s { camera = fill_camera s.camera })
  ]

-- The switch over the source.
unfoldable pub check_source : Parsers → Context → String → Settings → Checked Settings
unfolding check_rtsp check_rtmp check_hls check_udp check_redirect check_camera
check_source p conf name s =
    if str_eq s.source "publisher"
    then good s
    else if is_rtsp s.source
    then check_rtsp p s
    else if is_rtmp s.source
    then check_rtmp p s
    else if is_hls s.source
    then check_hls p s
    else if starts_with s.source "udp://"
    then check_udp p s
    else if str_eq s.source "redirect"
    then check_redirect p s
    else if str_eq s.source "rpiCamera"
    then check_camera conf name s
    else bad invalid_source
