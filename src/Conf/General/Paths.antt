-- ===== src/Conf/General/Paths.antt =====
-- internal/conf/conf.go: `CheckAndFillMissing`.
use Prim.Native.String.{String, compare}
use text.Mathlib.Text.{◌==◌ as str_eq, starts_with, is_lt}
use rtc_simple_server.Base.{
  if◌then◌else◌, ℕ, Bool, true, false, not, ◌&&◌, Option, none, some, List, [], ◌∷◌,
}
use rtc_simple_server.Base.Text.{lookup, delete, insert}
use rtc_simple_server.Conf.Settings.{Settings, zero_float, or_text}
use rtc_simple_server.Conf.Check.{CheckError, Checked, bad, good, Parsers, Context}
use rtc_simple_server.Conf.Check.Path.{check_and_fill_missing}
use rtc_simple_server.Conf.General.{
  GeneralConf, RtspConf, Conf, is_strict, is_udp, is_multicast, any, exceeds, has_two_bits,
  fill_general, fill_rtsp, fill_hls, fill_webrtc,
}

pub data ConfError : Type 0 where
  buffer_count_not_power : ConfError
  payload_too_large : ConfError
  invalid_external_authentication : ConfError
  strict_with_udp : ConfError
  strict_with_multicast : ConfError
  invalid_path : CheckError → ConfError

pub data ConfResult {ℓ} (A : Type ℓ) : Type ℓ where
  refused : ConfError → ConfResult A
  accepted : A → ConfResult A

infixl 5 ◌>>=◌
abbrev pub ◌>>=◌ {ℓ κ} :
    {A : Type ℓ} {B : Type κ} → ConfResult A → (A → ConfResult B) → ConfResult B
refused e >>= k = refused e
accepted a >>= k = k a

infixl 5 ◌>>◌
abbrev pub ◌>>◌ {ℓ κ} : {A : Type ℓ} {B : Type κ} → ConfResult A → ConfResult B → ConfResult B
refused e >> m = refused e
accepted a >> m = m

abbrev pub pure {ℓ} : {A : Type ℓ} → A → ConfResult A
pure a = accepted a

-- `if b { return e }`
abbrev pub refuse_if : Bool → ConfError → ConfResult Bool
refuse_if b e = if b then refused e else accepted true

unfoldable pub check_general : GeneralConf → ConfResult GeneralConf
unfolding fill_general
check_general c = do
  let d = fill_general c
  refuse_if (has_two_bits d.read_buffer_count) buffer_count_not_power
  refuse_if (exceeds 1472 d.udp_max_payload_size) payload_too_large
  refuse_if
      (not (str_eq d.external_authentication_url "")
        && not (starts_with d.external_authentication_url "http://")
        && not (starts_with d.external_authentication_url "https://"))
      invalid_external_authentication
  pure d

unfoldable pub check_rtsp_conf : RtspConf → ConfResult RtspConf
unfolding fill_rtsp
check_rtsp_conf c = do
  let d = fill_rtsp c
  refuse_if (is_strict d.encryption && any is_udp d.protocols) strict_with_udp
  refuse_if (is_strict d.encryption && any is_multicast d.protocols) strict_with_multicast
  pure d

-- `"all"` is an alias for `"~^.*$"`.
unfoldable pub resolve_all : List (String × Option Settings) → List (String × Option Settings)
unfolding lookup delete insert
resolve_all paths = elim (lookup "all" paths) [
  | none ↦ paths
  | some s ↦ delete "all" (insert "~^.*$" s paths)
]

-- `sort.Strings`
unfoldable pub insert_sorted : String → List String → List String
insert_sorted name [] = name ∷ []
insert_sorted name (other ∷ names) =
    let later = insert_sorted name names in
    if is_lt (compare other name) then other ∷ later else name ∷ other ∷ names

unfoldable pub sorted_names : List (String × Option Settings) → List String
unfolding insert_sorted
sorted_names [] = []
sorted_names ((name, s) ∷ paths) = insert_sorted name (sorted_names paths)

-- `&PathConf{}`
abbrev pub empty_settings : Settings
empty_settings = record {
  regexp = none;
  source = "";
  source_on_demand = false;
  source_on_demand_start_timeout = 0;
  source_on_demand_close_after = 0;
  source_redirect = "";
  disable_publisher_override = false;
  fallback = "";
  camera = record {
    cam_id = 0;
    width = 0;
    height = 0;
    contrast = zero_float;
    saturation = zero_float;
    sharpness = zero_float;
    fps = 0;
    idr_period = 0;
    bitrate = 0;
    profile = "";
    level = "";
    text_overlay = "";
    others = 0;
  };
  publish = record { ips = []; user = ""; pass = "" };
  read = record { ips = []; user = ""; pass = "" };
  run_on_init = "";
  run_on_demand = "";
  run_on_demand_start_timeout = 0;
  run_on_demand_close_after = 0;
  run_on_ready = "";
}

-- A path of the map, or the empty one in place of a nil pointer.
abbrev pub settings_of : Option (Option Settings) → Settings
settings_of none = empty_settings
settings_of (some none) = empty_settings
settings_of (some (some s)) = s

abbrev pub context : String → List (String × Option Settings) → Context
context url paths = record { external_authentication_url = url; paths = paths }

abbrev pub path_checked : Checked Settings → ConfResult Settings
path_checked (bad e) = refused (invalid_path e)
path_checked (good s) = accepted s

-- One round of the loop over the names: what is put into the map, and the path that is checked.
unfoldable pub check_path :
    Parsers
    → String
    → String
    → List (String × Option Settings)
    → ConfResult (List (String × Option Settings))
unfolding lookup insert check_and_fill_missing
check_path p url name paths =
    let s = settings_of (lookup name paths) in
    path_checked (check_and_fill_missing p (context url (insert name (some s) paths)) name s)
    >>= λ t. accepted (insert name (some t) paths)

unfoldable pub check_paths :
    Parsers
    → String
    → List String
    → List (String × Option Settings)
    → ConfResult (List (String × Option Settings))
unfolding check_path
check_paths p url [] paths = accepted paths
check_paths p url (name ∷ names) paths =
    check_path p url name paths >>= λ later. check_paths p url names later

abbrev pub or_empty : Option (List (String × Option Settings)) → List (String × Option Settings)
or_empty none = []
or_empty (some paths) = paths

-- `CheckAndFillMissing`; `low_latency` as for `fill_hls`.
unfoldable pub check_conf : Parsers → ℕ → Conf → ConfResult Conf
unfolding check_general check_rtsp_conf fill_hls fill_webrtc resolve_all sorted_names check_paths
check_conf p low_latency c = do
  general ← check_general c.general
  rtsp ← check_rtsp_conf c.rtsp
  let paths = resolve_all (or_empty c.paths)
  checked ← check_paths p general.external_authentication_url (sorted_names paths) paths
  pure (record {
    general = general;
    rtsp = rtsp;
    rtmp_address = or_text ":1935" c.rtmp_address;
    rtmps_address = or_text ":1936" c.rtmps_address;
    hls = fill_hls low_latency c.hls;
    webrtc = fill_webrtc c.webrtc;
    paths = some checked;
  })
