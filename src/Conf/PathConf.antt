-- ===== src/Conf/PathConf.antt =====
-- internal/conf/path.go: what a path reads of its configuration.
use text.Mathlib.Text.{◌==◌ as str_eq, starts_with}
use Prim.Native.String.{String}
use native.Mathlib.Decide.{ℕ_discrete}
use rtc_simple_server.Base.Text.{String-discrete}
use rtc_simple_server.Base.{ℕ, Bool, not, ◌&&◌, ◌||◌, List, is_yes, is_yes_iff, ◌≡◌, ◌↔◌, true}

-- Who may use a path: the argument of an `authenticateFunc`.
pub record Credentials : Type 0 where
  pub ips : List String
  pub user : String
  pub pass : String

-- `regexp` tells whether `Regexp` is non-nil. `camera` stands for the settings of the Raspberry
-- Pi camera that a running source takes over; no handler of a path looks into it.
pub record PathConf : Type 0 where
  pub regexp : Bool
  pub source : String
  pub source_on_demand : Bool
  pub source_redirect : String
  pub disable_publisher_override : Bool
  pub fallback : String
  pub run_on_init : String
  pub run_on_demand : String
  pub run_on_ready : String
  pub publish : Credentials
  pub read : Credentials
  pub camera : ℕ

unfoldable pub has_static_source : PathConf → Bool
has_static_source c =
    starts_with c.source "rtsp://"
    || starts_with c.source "rtsps://"
    || starts_with c.source "rtmp://"
    || starts_with c.source "rtmps://"
    || starts_with c.source "http://"
    || starts_with c.source "https://"
    || starts_with c.source "udp://"
    || str_eq c.source "rpiCamera"

unfoldable pub has_on_demand_static_source : PathConf → Bool
has_on_demand_static_source c = has_static_source c && c.source_on_demand

unfoldable pub has_on_demand_publisher : PathConf → Bool
has_on_demand_publisher c = not (str_eq c.run_on_demand "")

unfoldable pub is_redirect : PathConf → Bool
is_redirect c = str_eq c.source "redirect"

unfoldable pub is_publisher : PathConf → Bool
is_publisher c = str_eq c.source "publisher"

PathConf-discrete : Discrete PathConf
PathConf-discrete = hlevel (ℕ_discrete, String-discrete)

-- `reflect.DeepEqual`
unfoldable pub equal : PathConf → PathConf → Bool
unfolding PathConf-discrete
equal c d = is_yes (PathConf-discrete c d)

pub equal_iff : (c d : PathConf) → (equal c d ≡ true) ↔ (c ≡ d)
unfolding equal
equal_iff c d = is_yes_iff (PathConf-discrete c d)
