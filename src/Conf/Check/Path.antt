-- ===== src/Conf/Check/Path.antt =====
-- internal/conf/path.go: `checkAndFillMissing`.
use Prim.Native.String.{String}
use text.Mathlib.Text.{◌==◌ as str_eq, starts_with}
use rtc_simple_server.Base.{if◌then◌else◌, is_some, ℕ, not, ◌&&◌, none, some}
use rtc_simple_server.Conf.PathName.{is_valid_path_name}
use rtc_simple_server.Conf.Settings.{Settings, or_number, or_text, drop_chars}
use rtc_simple_server.Conf.Check.{
  Checked, ◌>>=◌, ◌>>◌, pure, refuse, is_half, has_ips, Parsers, Context, invalid_url,
  missing_credential, useless_on_demand, invalid_fallback, useless_publish_user,
  useless_publish_ips, external_authentication, regexp_with_init, useless_run_on_demand, bad, good,
}
use rtc_simple_server.Conf.Check.Source.{check_name, check_source}

abbrev pub ten_seconds : ℕ
ten_seconds = 10000000000

unfoldable pub check_on_demand : Settings → Checked Settings
check_on_demand s = do
  refuse (s.source_on_demand && str_eq s.source "publisher") useless_on_demand
  pure (record s {
    source_on_demand_start_timeout = or_number ten_seconds s.source_on_demand_start_timeout;
    source_on_demand_close_after = or_number ten_seconds s.source_on_demand_close_after;
  })

unfoldable pub check_fallback : Parsers → Settings → Checked Settings
check_fallback p s =
    if str_eq s.fallback ""
    then good s
    else if starts_with s.fallback "/"
    then elim (is_valid_path_name (drop_chars 1 s.fallback)) [
      | some e ↦ bad (invalid_fallback e)
      | none ↦ good s
    ]
    else if p.is_rtsp_url s.fallback
    then good s
    else bad invalid_url

unfoldable pub check_credentials : Context → Settings → Checked Settings
check_credentials conf s = do
  let external = not (str_eq conf.external_authentication_url "")
  let published = str_eq s.source "publisher"
  refuse (is_half s.publish.user s.publish.pass) missing_credential
  refuse (not (str_eq s.publish.user "") && not published) useless_publish_user
  refuse (not (str_eq s.publish.user "") && external) external_authentication
  refuse (has_ips s.publish && not published) useless_publish_ips
  refuse (has_ips s.publish && external) external_authentication
  refuse (is_half s.read.user s.read.pass) missing_credential
  refuse (not (str_eq s.read.user "") && external) external_authentication
  refuse (has_ips s.read && external) external_authentication
  pure s

unfoldable pub check_commands : Settings → Checked Settings
check_commands s = do
  refuse (not (str_eq s.run_on_init "") && is_some s.regexp) regexp_with_init
  refuse (not (str_eq s.run_on_demand "") && not (str_eq s.source "publisher"))
      useless_run_on_demand
  pure (record s {
    run_on_demand_start_timeout = or_number ten_seconds s.run_on_demand_start_timeout;
    run_on_demand_close_after = or_number ten_seconds s.run_on_demand_close_after;
  })

unfoldable pub check_and_fill_missing : Parsers → Context → String → Settings → Checked Settings
unfolding check_name check_source check_on_demand check_fallback check_credentials check_commands
check_and_fill_missing p conf name s = do
  named ← check_name p name s
  sourced ← check_source p conf name (record named { source = or_text "publisher" named.source })
  demanded ← check_on_demand sourced
  fallen ← check_fallback p demanded
  credited ← check_credentials conf fallen
  check_commands credited
