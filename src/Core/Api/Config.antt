-- ===== src/Core/Api/Config.antt =====
-- internal/core/api.go: the handlers that change the configuration.
use Prim.Native.String.{String}
use Prim.Native.Char.{code}
use text.Mathlib.Text.{◌==◌ as str_eq}
use rtc_simple_server.Base.{
  if◌then◌else◌, ◌==◌, ℕ, not, ◌&&◌, Option, none, some, List, [], ◌∷◌, is_some,
}
use rtc_simple_server.Base.Text.{lookup, insert, delete}
use rtc_simple_server.Conf.Settings.{Settings}
use rtc_simple_server.Conf.Check.{Parsers}
use rtc_simple_server.Conf.General.{Conf}
use rtc_simple_server.Conf.General.Paths.{
  refused, accepted, empty_settings, settings_of, or_empty, check_conf,
}
use rtc_simple_server.Conf.Values.{clone_credentials, clone_auth_methods}
use rtc_simple_server.Core.Api.Fields.{PathFields, ConfFields, fill_path, fill_conf}

-- The API: its configuration, and those for which it has started a goroutine that passes them on to
-- the core, the newest first. Nothing orders these goroutines.
pub record Api : Type 0 where
  pub conf : Conf
  pub sent : List Conf

pub data Status : Type 0 where
  status_ok bad_request : Status

-- `Clone`, through JSON, in which the regular expression has no name, and the IPs and the methods of
-- authentication are sorted.
unfoldable pub clone_settings : Settings → Settings
unfolding clone_credentials
clone_settings s = record s {
  regexp = none;
  publish = clone_credentials s.publish;
  read = clone_credentials s.read;
}

unfoldable pub clone_path : Option Settings → Option Settings
unfolding clone_settings
clone_path none = none
clone_path (some s) = some (clone_settings s)

unfoldable pub clone_paths : List (String × Option Settings) → List (String × Option Settings)
unfolding clone_path
clone_paths [] = []
clone_paths ((name, s) ∷ paths) = (name, clone_path s) ∷ clone_paths paths

unfoldable pub clone_map :
    Option (List (String × Option Settings)) → Option (List (String × Option Settings))
unfolding clone_paths
clone_map none = none
clone_map (some paths) = some (clone_paths paths)

unfoldable pub clone : Conf → Conf
unfolding clone_map clone_auth_methods
clone c = record c {
  rtsp = record c.rtsp { auth_methods = clone_auth_methods c.rtsp.auth_methods };
  paths = clone_map c.paths;
}

-- The name of a path in the URL, which stands behind a slash.
unfoldable pub param_name : String → Option String
param_name String.[] = none
param_name (String.◌∷◌ first others) =
    if code first == b'/' && not (str_eq others "") then some others else none

-- `confReload`, which the core calls.
unfoldable pub conf_reload_api : Conf → Api → Api
conf_reload_api c a = record a { conf = c }

-- What the handlers end with: the check, and the configuration that is passed on.
unfoldable pub commit : Parsers → ℕ → Conf → Api → Status × Api
unfolding check_conf
commit p low_latency new a = elim (check_conf p low_latency new) [
  | refused e ↦ (bad_request, a)
  | accepted d ↦ (status_ok, record { conf = d; sent = d ∷ a.sent })
]

-- A body that cannot be decoded is `none`.
unfoldable pub on_config_set : Parsers → ℕ → Option ConfFields → Api → Status × Api
unfolding commit clone fill_conf
on_config_set p low_latency none a = (bad_request, a)
on_config_set p low_latency (some i) a = commit p low_latency (fill_conf i (clone a.conf)) a

unfoldable pub set_paths : List (String × Option Settings) → Conf → Conf
set_paths paths c = record c { paths = some paths }

-- The handlers on paths, with the name and the body taken apart. After a check the map and its
-- paths are not nil.
unfoldable pub add_path : Parsers → ℕ → String → PathFields → Api → Status × Api
unfolding commit clone lookup insert set_paths fill_path
add_path p low_latency name i a =
    let new = clone a.conf in
    if is_some (lookup name (or_empty new.paths))
    then (bad_request, a)
    else commit p low_latency
        (set_paths (insert name (some (fill_path i empty_settings)) (or_empty new.paths)) new) a

unfoldable pub edit_path : Parsers → ℕ → String → PathFields → Api → Status × Api
unfolding commit clone lookup insert set_paths fill_path
edit_path p low_latency name i a =
    let new = clone a.conf in
    let old = lookup name (or_empty new.paths) in
    if not (is_some old)
    then (bad_request, a)
    else commit p low_latency
        (set_paths (insert name (some (fill_path i (settings_of old))) (or_empty new.paths)) new) a

unfoldable pub delete_path : Parsers → ℕ → String → Api → Status × Api
unfolding commit clone lookup delete set_paths
delete_path p low_latency name a =
    let new = clone a.conf in
    if not (is_some (lookup name (or_empty new.paths)))
    then (bad_request, a)
    else commit p low_latency (set_paths (delete name (or_empty new.paths)) new) a

pub data ConfigRequest : Type 0 where
  config_set : Option ConfFields → ConfigRequest
  paths_add paths_edit : String → Option PathFields → ConfigRequest
  paths_delete : String → ConfigRequest

unfoldable pub with_body :
    Option String
    → Option PathFields
    → (String → PathFields → Api → Status × Api)
    → Api
    → Status × Api
with_body none i handler a = (bad_request, a)
with_body (some name) none handler a = (bad_request, a)
with_body (some name) (some i) handler a = handler name i a

unfoldable pub with_name : Option String → (String → Api → Status × Api) → Api → Status × Api
with_name none handler a = (bad_request, a)
with_name (some name) handler a = handler name a

-- A request, under the lock of the API.
unfoldable pub handle : Parsers → ℕ → ConfigRequest → Api → Status × Api
unfolding on_config_set add_path edit_path delete_path param_name with_body with_name
handle p low_latency (config_set i) a = on_config_set p low_latency i a
handle p low_latency (paths_add param i) a =
    with_body (param_name param) i (add_path p low_latency) a
handle p low_latency (paths_edit param i) a =
    with_body (param_name param) i (edit_path p low_latency) a
handle p low_latency (paths_delete param) a =
    with_name (param_name param) (delete_path p low_latency) a
