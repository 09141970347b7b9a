-- ===== src/Conf/Check.antt =====
-- internal/conf/path.go: what `checkAndFillMissing` gives and asks.
pub mod Source
pub mod Path
pub mod Stages
pub mod Filled
pub mod Accepted
pub mod SameCamera
use Prim.Native.String.{String}
use text.Mathlib.Text.{◌==◌ as str_eq}
use rtc_simple_server.Base.{
  if◌then◌else◌, is_empty, Bool, true, false, not, ◌&&◌, ◌||◌, Option, none, some, List,
}
use rtc_simple_server.Conf.PathConf.{Credentials}
use rtc_simple_server.Conf.PathName.{NameError}
use rtc_simple_server.Conf.Settings.{Settings}

pub data CheckError : Type 0 where
  invalid_name : NameError → CheckError
  invalid_regexp : CheckError
  regexp_with_source : CheckError
  invalid_url : CheckError
  missing_credential : CheckError
  invalid_ip : String → CheckError
  missing_redirect : CheckError
  same_camera : String → CheckError
  invalid_source : CheckError
  useless_on_demand : CheckError
  invalid_fallback : NameError → CheckError
  useless_publish_user : CheckError
  useless_publish_ips : CheckError
  external_authentication : CheckError
  regexp_with_init : CheckError
  useless_run_on_demand : CheckError

pub data Checked {ℓ} (A : Type ℓ) : Type ℓ where
  bad : CheckError → Checked A
  good : A → Checked A

infixl 5 ◌>>=◌
abbrev pub ◌>>=◌ {ℓ κ} : {A : Type ℓ} {B : Type κ} → Checked A → (A → Checked B) → Checked B
bad e >>= k = bad e
good a >>= k = k a

infixl 5 ◌>>◌
abbrev pub ◌>>◌ {ℓ κ} : {A : Type ℓ} {B : Type κ} → Checked A → Checked B → Checked B
bad e >> m = bad e
good a >> m = m

abbrev pub pure {ℓ} : {A : Type ℓ} → A → Checked A
pure a = good a

-- `if b { return e }`
abbrev pub refuse : Bool → CheckError → Checked Bool
refuse b e = if b then bad e else good true

-- A parsed URL: its scheme, and the user name and the password, if it has them.
pub record Url : Type 0 where
  pub scheme : String
  pub user : Option (String × String)

-- Whether one of two credentials is there without the other.
abbrev pub is_half : String → String → Bool
is_half user pass = not (str_eq user "") && str_eq pass "" || str_eq user "" && not (str_eq pass "")

abbrev pub has_half_user : Url → Bool
has_half_user u = elim u.user [ none ↦ false | some (user, pass) ↦ is_half user pass ]

abbrev pub has_ips : Credentials → Bool
has_ips c = not (is_empty c.ips)

-- What the check asks of other code: regexp.Compile, the two functions Parse on URLs,
-- net.SplitHostPort, of which the host is kept, and net.ParseIP.
pub record Parsers : Type 0 where
  pub compiles : String → Bool
  pub is_rtsp_url : String → Bool
  pub parse_url : String → Option Url
  pub split_host_port : String → Option String
  pub is_ip : String → Bool

-- What it reads of the whole configuration: a path that is a nil pointer is `none`.
pub record Context : Type 0 where
  pub external_authentication_url : String
  pub paths : List (String × Option Settings)
