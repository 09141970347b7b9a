-- ===== src/Conf/Settings.antt =====
-- internal/conf/path.go: all that the check of a path's configuration reads and fills in.
use Prim.Native.Char.{code}
use Prim.Native.String.{String}
use text.Mathlib.Text.{◌==◌ as str_eq}
use rtc_simple_server.Base.{◌==◌, if◌then◌else◌, is_some, ℕ, zero, suc, Bool, false, Option}
use rtc_simple_server.Conf.PathConf.{Credentials, PathConf}

-- A float64, of which only 0 and 1 are told apart: `other_float` numbers the rest.
pub data Float : Type 0 where
  zero_float : Float
  one_float : Float
  other_float : ℕ → Float

abbrev pub or_one : Float → Float
or_one zero_float = one_float
or_one x = x

-- An int of Go as a word of 64 bits; `others` stands for the settings that are not looked at.
pub record Camera : Type 0 where
  pub cam_id : ℕ
  pub width : ℕ
  pub height : ℕ
  pub contrast : Float
  pub saturation : Float
  pub sharpness : Float
  pub fps : ℕ
  pub idr_period : ℕ
  pub bitrate : ℕ
  pub profile : String
  pub level : String
  pub text_overlay : String
  pub others : ℕ

-- `PathConf` with its camera and its times, in nanoseconds; `regexp` is the text of the compiled
-- regular expression.
pub record Settings : Type 0 where
  pub regexp : Option String
  pub source : String
  pub source_on_demand : Bool
  pub source_on_demand_start_timeout : ℕ
  pub source_on_demand_close_after : ℕ
  pub source_redirect : String
  pub disable_publisher_override : Bool
  pub fallback : String
  pub camera : Camera
  pub publish : Credentials
  pub read : Credentials
  pub run_on_init : String
  pub run_on_demand : String
  pub run_on_demand_start_timeout : ℕ
  pub run_on_demand_close_after : ℕ
  pub run_on_ready : String

-- What a path reads of it; `number` tells the settings of the camera apart.
abbrev pub seen : (Camera → ℕ) → Settings → PathConf
seen number s = record {
  regexp = is_some s.regexp;
  source = s.source;
  source_on_demand = s.source_on_demand;
  source_redirect = s.source_redirect;
  disable_publisher_override = s.disable_publisher_override;
  fallback = s.fallback;
  run_on_init = s.run_on_init;
  run_on_demand = s.run_on_demand;
  run_on_ready = s.run_on_ready;
  publish = s.publish;
  read = s.read;
  camera = number s.camera;
}

-- `if x == 0 { x = default }` and `if x == "" { x = default }`
abbrev pub or_number : ℕ → ℕ → ℕ
or_number default x = if x == 0 then default else x

abbrev pub or_text : String → String → String
or_text default x = if str_eq x "" then default else x

-- A text without its first characters, which are ASCII.
abbrev pub drop_chars : ℕ → String → String
drop_chars zero s = s
drop_chars (suc n) String.[] = String.[]
drop_chars (suc n) (String.◌∷◌ first others) = drop_chars n others

abbrev pub begins_with_tilde : String → Bool
begins_with_tilde String.[] = false
begins_with_tilde (String.◌∷◌ first others) = code first == b'~'
