-- ===== src/Core/Api/Laws/Outcome.antt =====
-- Every request of internal/core/api.go is refused, or its configuration was accepted.
use Prim.Native.String.{String}
use rtc_simple_server.Base.{
  if◌then◌else◌, is_some, ℕ, ◌≡◌, refl, ap, ◌⊎◌, inl, inr, Bool, true, false, not, ◌&&◌, Option,
  none, some, ◌∷◌,
}
use rtc_simple_server.Base.Text.{lookup, insert, delete}
use rtc_simple_server.Conf.Settings.{Settings}
use rtc_simple_server.Conf.Check.{Parsers}
use rtc_simple_server.Conf.General.{Conf}
use rtc_simple_server.Conf.General.Paths.{
  ConfResult, refused, accepted, empty_settings, settings_of, or_empty, check_conf,
}
use rtc_simple_server.Core.Api.Fields.{PathFields, fill_path, fill_conf}
use rtc_simple_server.Core.Api.Config.{
  Api, Status, status_ok, bad_request, clone, param_name, commit, on_config_set, set_paths,
  add_path, edit_path, delete_path, ConfigRequest, config_set, paths_add, paths_edit, paths_delete,
  with_body, with_name, handle,
}

-- The configuration that a handler on a path proposes.
abbrev pub with_path : String → Settings → Conf → Conf
with_path name s c = set_paths (insert name (some s) (or_empty c.paths)) c

abbrev pub with_field : String → PathFields → Conf → Conf
with_field name i c = with_path name (fill_path i (settings_of (lookup name (or_empty c.paths)))) c

abbrev pub without_path : String → Conf → Conf
without_path name c = set_paths (delete name (or_empty c.paths)) c

abbrev pub with_param :
    Option String → Option PathFields → (String → PathFields → Conf → Conf) → Conf → Conf
with_param (some name) (some i) change c = change name i c
with_param (some name) none change c = c
with_param none i change c = c

abbrev pub without_param : Option String → Conf → Conf
without_param (some name) c = without_path name c
without_param none c = c

-- The configuration that a request asks for, which the check then comes to.
abbrev pub proposed : ConfigRequest → Conf → Conf
proposed (config_set none) c = c
proposed (config_set (some i)) c = fill_conf i c
proposed (paths_add param i) c =
    with_param (param_name param) i (λ name j. with_path name (fill_path j empty_settings)) c
proposed (paths_edit param i) c = with_param (param_name param) i with_field c
proposed (paths_delete param) c = without_param (param_name param) c

abbrev pub with_param_ok : Option String → Option PathFields → (String → Bool) → Bool
with_param_ok (some name) (some i) test = test name
with_param_ok (some name) none test = false
with_param_ok none i test = false

abbrev pub without_param_ok : Option String → (String → Bool) → Bool
without_param_ok (some name) test = test name
without_param_ok none test = false

abbrev pub has_path : Conf → String → Bool
has_path c name = is_some (lookup name (or_empty c.paths))

-- Whether the request comes to the check: its body is decoded, its path has a name, and is there for
-- an edit or a deletion, and not there for an addition.
abbrev pub admissible : ConfigRequest → Conf → Bool
admissible (config_set none) c = false
admissible (config_set (some i)) c = true
admissible (paths_add param i) c =
    with_param_ok (param_name param) i (λ name. not (has_path c name))
admissible (paths_edit param i) c = with_param_ok (param_name param) i (has_path c)
admissible (paths_delete param) c = without_param_ok (param_name param) (has_path c)

abbrev pub is_accepted : ConfResult Conf → Bool
is_accepted (refused e) = false
is_accepted (accepted d) = true

-- The request is refused, with nothing changed, just where it does not come to the check or the
-- check refuses the configuration c; else c was accepted, is that of the API now, and is passed on
-- to the core.
abbrev pub Outcome : Parsers → ℕ → Bool → Conf → Api → Status × Api → Type 0
Outcome p low_latency ok c a r =
    (((ok && is_accepted (check_conf p low_latency c)) ≡ false) × (r ≡ (bad_request, a)))
    ⊎ ((ok ≡ true)
        × (r.0 ≡ status_ok)
        × (check_conf p low_latency c ≡ accepted r.1.conf)
        × (r.1.sent ≡ r.1.conf ∷ a.sent))

module _ (p : Parsers) (low_latency : ℕ) where
  commit-Outcome : (c : Conf) (a : Api) → Outcome p low_latency true c a (commit p low_latency c a)
  unfolding commit
  commit-Outcome c a = decided (check_conf p low_latency c) refl
    where
      decided :
          (r : ConfResult Conf)
          → check_conf p low_latency c ≡ r
          → Outcome p low_latency true c a (elim r [
            | refused e ↦ (bad_request, a)
            | accepted d ↦ (status_ok, record { conf = d; sent = d ∷ a.sent })
          ])
      decided (refused e) h = inl (ap is_accepted h, refl)
      decided (accepted d) h = inr (refl, refl, h, refl)

  refused-Outcome : (c : Conf) (a : Api) → Outcome p low_latency false c a (bad_request, a)
  refused-Outcome c a = inl (refl, refl)

  guarded-Outcome :
      (b : Bool) (c : Conf) (a : Api)
      → Outcome p low_latency (not b) c a (if b then (bad_request, a) else commit p low_latency c a)
  guarded-Outcome true c a = refused-Outcome c a
  guarded-Outcome false c a = commit-Outcome c a

  unless-Outcome :
      (b : Bool) (c : Conf) (a : Api)
      → Outcome p low_latency b c a (if not b then (bad_request, a) else commit p low_latency c a)
  unless-Outcome true c a = commit-Outcome c a
  unless-Outcome false c a = refused-Outcome c a

  with_body-Outcome :
      (o : Option String) (i : Option PathFields)
      (handler : String → PathFields → Api → Status × Api) (test : String → Bool)
      (change : String → PathFields → Conf → Conf) (a : Api)
      → ((name : String) (j : PathFields)
          → Outcome p low_latency (test name) (change name j (clone a.conf)) a (handler name j a))
      → Outcome p low_latency
          (with_param_ok o i test)
          (with_param o i change (clone a.conf))
          a
          (with_body o i handler a)
  unfolding with_body
  with_body-Outcome none i handler test change a h = refused-Outcome _ a
  with_body-Outcome (some name) none handler test change a h = refused-Outcome _ a
  with_body-Outcome (some name) (some i) handler test change a h = h name i

  with_name-Outcome :
      (o : Option String) (handler : String → Api → Status × Api) (test : String → Bool) (a : Api)
      → ((name : String)
          → Outcome p low_latency (test name) (without_path name (clone a.conf)) a (handler name a))
      → Outcome p low_latency
          (without_param_ok o test)
          (without_param o (clone a.conf))
          a
          (with_name o handler a)
  unfolding with_name
  with_name-Outcome none handler test a h = refused-Outcome _ a
  with_name-Outcome (some name) handler test a h = h name

pub handle-Outcome :
    (p : Parsers) (low_latency : ℕ) (q : ConfigRequest) (a : Api)
    → let c = clone a.conf in
      Outcome p low_latency (admissible q c) (proposed q c) a (handle p low_latency q a)
unfolding handle on_config_set add_path edit_path delete_path
handle-Outcome p low_latency (config_set none) a = refused-Outcome p low_latency (clone a.conf) a
handle-Outcome p low_latency (config_set (some i)) a =
    commit-Outcome p low_latency (fill_conf i (clone a.conf)) a
handle-Outcome p low_latency (paths_add param i) a =
    let c = clone a.conf in
    with_body-Outcome p low_latency (param_name param) i (add_path p low_latency)
      (λ name. not (has_path c name)) (λ name j. with_path name (fill_path j empty_settings)) a
      (λ name j.
        guarded-Outcome p low_latency (has_path c name)
          (with_path name (fill_path j empty_settings) c) a)
handle-Outcome p low_latency (paths_edit param i) a =
    let c = clone a.conf in
    with_body-Outcome p low_latency (param_name param) i (edit_path p low_latency) (has_path c)
      with_field a
      (λ name j. unless-Outcome p low_latency (has_path c name) (with_field name j c) a)
handle-Outcome p low_latency (paths_delete param) a =
    let c = clone a.conf in
    with_name-Outcome p low_latency (param_name param) (delete_path p low_latency) (has_path c) a
      (λ name. unless-Outcome p low_latency (has_path c name) (without_path name c) a)
