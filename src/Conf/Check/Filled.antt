-- ===== src/Conf/Check/Filled.antt =====
-- What `checkAndFillMissing` of internal/conf/path.go makes of a path that it accepts.
use Prim.Native.String.{String}
use text.Mathlib.Text.{◌==◌ as str_eq}
use text.Mathlib.TextEquality.{eq_iff}
use rtc_simple_server.Base.{
  if◌then◌else◌, Bool-cases, ◌≡◌, refl, sym, ap, subst, ◌∙◌, inl, inr, Bool, true, false, Option,
  none, some, arith, ℕ, ◌==◌,
}
use rtc_simple_server.Conf.PathConf.{Credentials}
use rtc_simple_server.Conf.Settings.{
  Float, zero_float, one_float, other_float, or_one, Camera, Settings, or_number, or_text,
  drop_chars, begins_with_tilde,
}
use rtc_simple_server.Conf.Check.{Parsers, Context, good}
use rtc_simple_server.Conf.Check.Source.{check_name, fill_camera, check_camera, check_source}
use rtc_simple_server.Conf.Check.Path.{
  check_on_demand, check_fallback, check_credentials, check_commands, check_and_fill_missing,
  ten_seconds,
}
use rtc_simple_server.Conf.Check.Stages.{
  inversion, check_source-cases, check_fallback-same, check_credentials-same,
}

-- What each stage fills in.
unfoldable pub name_filled : String → Settings → Settings
name_filled name s = record s {
  regexp = if begins_with_tilde name then some (drop_chars 1 name) else s.regexp;
}

unfoldable pub source_filled : Settings → Settings
source_filled s = record s { source = or_text "publisher" s.source }

-- The settings of a camera, each as it was, or its default where it was zero or empty.
unfoldable pub defaults_of : Camera → Camera
defaults_of c = record {
  cam_id = c.cam_id;
  width = if c.width == 0 then 1920 else c.width;
  height = if c.height == 0 then 1080 else c.height;
  contrast = or_one c.contrast;
  saturation = or_one c.saturation;
  sharpness = or_one c.sharpness;
  fps = if c.fps == 0 then 30 else c.fps;
  idr_period = if c.idr_period == 0 then 60 else c.idr_period;
  bitrate = if c.bitrate == 0 then 1000000 else c.bitrate;
  profile = if str_eq c.profile "" then "main" else c.profile;
  level = if str_eq c.level "" then "4.1" else c.level;
  text_overlay =
      if str_eq c.text_overlay "" then "%Y-%m-%d %H:%M:%S - MediaMTX" else c.text_overlay;
  others = c.others;
}

unfoldable pub camera_filled : Settings → Settings
unfolding defaults_of
camera_filled s = record s {
  camera = if str_eq s.source "rpiCamera" then defaults_of s.camera else s.camera;
}

fill_camera-defaults_of : (c : Camera) → fill_camera c ≡ defaults_of c
unfolding fill_camera defaults_of
fill_camera-defaults_of c = refl

unfoldable pub on_demand_filled : Settings → Settings
on_demand_filled s = record s {
  source_on_demand_start_timeout = or_number ten_seconds s.source_on_demand_start_timeout;
  source_on_demand_close_after = or_number ten_seconds s.source_on_demand_close_after;
}

unfoldable pub commands_filled : Settings → Settings
commands_filled s = record s {
  run_on_demand_start_timeout = or_number ten_seconds s.run_on_demand_start_timeout;
  run_on_demand_close_after = or_number ten_seconds s.run_on_demand_close_after;
}

-- The path with all that is missing filled in, whatever is not checked.
unfoldable pub filled : String → Settings → Settings
unfolding name_filled source_filled camera_filled on_demand_filled commands_filled
filled name s =
    commands_filled (on_demand_filled (camera_filled (source_filled (name_filled name s))))

check_name-filled :
    (p : Parsers) (name : String) (s t : Settings)
    → check_name p name s ≡ good t
    → t ≡ name_filled name s
unfolding check_name name_filled
check_name-filled p name s t e = ground (arith, e)

check_source-filled :
    (p : Parsers) (conf : Context) (name : String) (s t : Settings)
    → check_source p conf name s ≡ good t
    → t ≡ camera_filled s
unfolding check_camera camera_filled
check_source-filled p conf name s t e = elim (check_source-cases p conf name s t e).1 [
  | inl (other, same) ↦ ground (arith, other, same)
  | inr (camera, found) ↦ ground (arith, camera, found)
]

check_on_demand-filled : (s t : Settings) → check_on_demand s ≡ good t → t ≡ on_demand_filled s
unfolding check_on_demand on_demand_filled
check_on_demand-filled s t e = ground (arith, e)

check_commands-filled : (s t : Settings) → check_commands s ≡ good t → t ≡ commands_filled s
unfolding check_commands commands_filled
check_commands-filled s t e = ground (arith, e)

-- A path that is accepted is filled in, and is changed in nothing else.
pub check_and_fill_missing-filled :
    (p : Parsers) (conf : Context) (name : String) (s t : Settings)
    → check_and_fill_missing p conf name s ≡ good t
    → t ≡ filled name s
unfolding check_and_fill_missing filled source_filled
check_and_fill_missing-filled p conf name s t e =
    let (named, en, e1) = inversion (check_name p name s) _ t e in
    let (sourced, es, e2) = inversion (check_source p conf name (source_filled named)) _ t e1 in
    let (demanded, ed, e3) = inversion (check_on_demand sourced) _ t e2 in
    let (fallen, ef, e4) = inversion (check_fallback p demanded) _ t e3 in
    let (credited, ec, e5) = inversion (check_credentials conf fallen) _ t e4 in
    check_commands-filled credited t e5
    ∙ ap commands_filled (
        check_credentials-same conf fallen credited ec
        ∙ check_fallback-same p demanded fallen ef
        ∙ check_on_demand-filled sourced demanded ed
        ∙ ap on_demand_filled (
            check_source-filled p conf name (source_filled named) sourced es
            ∙ ap (λ u. camera_filled (source_filled u)) (check_name-filled p name s named en)))

or_number_twice : (d n : ℕ) → (d == 0) ≡ false → or_number d (or_number d n) ≡ or_number d n
or_number_twice d n h = ground (arith, h)

or_text_twice : (d s : String) → str_eq d "" ≡ false → or_text d (or_text d s) ≡ or_text d s
or_text_twice d s h = elim (Bool-cases (str_eq s "")) [
  | inl e ↦ ground (arith, e, h)
  | inr e ↦ ground (arith, e, h)
]

or_one_twice : (x : Float) → or_one (or_one x) ≡ or_one x
or_one_twice zero_float = refl
or_one_twice one_float = refl
or_one_twice (other_float n) = refl

defaults_of_twice : (c : Camera) → defaults_of (defaults_of c) ≡ defaults_of c
unfolding defaults_of
defaults_of_twice c = cc (
  or_number_twice 1920 c.width refl,
  or_number_twice 1080 c.height refl,
  or_one_twice c.contrast,
  or_one_twice c.saturation,
  or_one_twice c.sharpness,
  or_number_twice 30 c.fps refl,
  or_number_twice 60 c.idr_period refl,
  or_number_twice 1000000 c.bitrate refl,
  or_text_twice "main" c.profile refl,
  or_text_twice "4.1" c.level refl,
  or_text_twice "%Y-%m-%d %H:%M:%S - MediaMTX" c.text_overlay refl,
)

camera_twice :
    (source : String) (c : Camera)
    → let once = if str_eq source "rpiCamera" then defaults_of c else c in
      (if str_eq (or_text "publisher" source) "rpiCamera" then defaults_of once else once)
      ≡ (if str_eq source "rpiCamera" then defaults_of c else c)
camera_twice source c = elim (Bool-cases (str_eq source "rpiCamera")) [
  | inl camera ↦
      let named =
        subst (λ s. str_eq s "" ≡ false) (sym ((eq_iff source "rpiCamera").0 camera)) refl in
      ground (arith, camera, named, defaults_of_twice c)
  | inr other ↦ elim (Bool-cases (str_eq source "")) [
    | inl empty ↦
        let published : or_text "publisher" source ≡ "publisher" = ground (arith, empty) in
        let no_camera : str_eq (or_text "publisher" source) "rpiCamera" ≡ false =
          ap (λ s. str_eq s "rpiCamera") published in
        ground (arith, other, no_camera)
    | inr named ↦ ground (arith, other, named)
  ]
]

-- A path that was filled in is filled in already, also when its regular expression is left out and its
-- credentials are others.
pub filled_twice :
    (name : String) (s : Settings) (publish read : Credentials)
    → s.regexp ≡ none
    → filled name (record (filled name s) { regexp = none; publish = publish; read = read })
      ≡ record (filled name s) { publish = publish; read = read }
unfolding filled
filled_twice name s publish read h = λ i. record s {
  publish = publish;
  read = read;
  regexp = if begins_with_tilde name then some (drop_chars 1 name) else sym h i;
  source = or_text_twice "publisher" s.source refl i;
  camera = camera_twice (or_text "publisher" s.source) s.camera i;
  source_on_demand_start_timeout =
      or_number_twice ten_seconds s.source_on_demand_start_timeout refl i;
  source_on_demand_close_after = or_number_twice ten_seconds s.source_on_demand_close_after refl i;
  run_on_demand_start_timeout = or_number_twice ten_seconds s.run_on_demand_start_timeout refl i;
  run_on_demand_close_after = or_number_twice ten_seconds s.run_on_demand_close_after refl i;
}

-- So it is where the check comes to it again.
pub filled_again : (name : String) (s : Settings) → filled name (filled name s) ≡ filled name s
unfolding filled name_filled source_filled camera_filled on_demand_filled commands_filled
filled_again name s = λ i. record s {
  regexp = regexp_again (begins_with_tilde name) (some (drop_chars 1 name)) s.regexp i;
  source = or_text_twice "publisher" s.source refl i;
  camera = camera_twice (or_text "publisher" s.source) s.camera i;
  source_on_demand_start_timeout =
      or_number_twice ten_seconds s.source_on_demand_start_timeout refl i;
  source_on_demand_close_after = or_number_twice ten_seconds s.source_on_demand_close_after refl i;
  run_on_demand_start_timeout = or_number_twice ten_seconds s.run_on_demand_start_timeout refl i;
  run_on_demand_close_after = or_number_twice ten_seconds s.run_on_demand_close_after refl i;
}
  where
    regexp_again :
        (b : Bool) (x y : Option String)
        → (if b then x else (if b then x else y)) ≡ (if b then x else y)
    regexp_again true x y = refl
    regexp_again false x y = refl
