-- ===== src/Core/Api/Laws/Paths.antt =====
-- A request of internal/core/api.go on one path leaves the other paths as they were.
use Prim.Native.String.{String}
use text.Mathlib.Text.{◌==◌ as str_eq}
use rtc_simple_server.Base.{
  Bool-cases, Option-cases, ℕ, ◌≡◌, refl, sym, ap, ◌∙◌, ◌⊎◌, inl, inr, Bool, false, Option, none,
  some, List, [], ◌∷◌, arith,
}
use rtc_simple_server.Base.Text.{lookup, lookup-insert, lookup-delete}
use rtc_simple_server.Conf.Settings.{Settings}
use rtc_simple_server.Conf.Check.{Parsers}
use rtc_simple_server.Conf.Check.Filled.{filled, filled_twice}
use rtc_simple_server.Conf.General.{Conf}
use rtc_simple_server.Conf.General.Paths.{empty_settings, settings_of, or_empty}
use rtc_simple_server.Conf.General.Filled.{filled_at, check_conf-filled, lookup-resolve_all}
use rtc_simple_server.Conf.Values.{clone_credentials}
use rtc_simple_server.Core.Api.Fields.{PathFields, fill_path, fill_conf}
use rtc_simple_server.Core.Api.Config.{
  Api, clone_settings, clone_path, clone_paths, clone_map, clone, param_name, set_paths,
  ConfigRequest, config_set, paths_add, paths_edit, paths_delete, handle,
}
use rtc_simple_server.Core.Api.Laws.Outcome.{
  with_path, with_param, without_param, proposed, handle-Outcome,
}

-- Each path is one that was filled in, as the check leaves it where no path has brought a regular
-- expression, which a clone never does.
unfoldable pub IsSettled : Conf → Type 0
unfolding filled
IsSettled c =
    (name : String) (x : Option Settings)
    → lookup name (or_empty c.paths) ≡ some x
    → (s : Settings) × (s.regexp ≡ none) × (x ≡ some (filled name s))

abbrev pub cloned_at : Option (Option Settings) → Option (Option Settings)
cloned_at none = none
cloned_at (some x) = some (clone_path x)

lookup-clone_paths :
    (name : String) (paths : List (String × Option Settings))
    → lookup name (clone_paths paths) ≡ cloned_at (lookup name paths)
unfolding lookup clone_paths
lookup-clone_paths name [] = refl
lookup-clone_paths name ((key, value) ∷ paths) = elim (Bool-cases (str_eq key name)) [
  | inl same ↦ ground (arith, same)
  | inr other ↦ ground (arith, other, lookup-clone_paths name paths)
]

lookup-clone_map :
    (name : String) (m : Option (List (String × Option Settings)))
    → lookup name (or_empty (clone_map m)) ≡ cloned_at (lookup name (or_empty m))
unfolding clone_map lookup
lookup-clone_map name none = refl
lookup-clone_map name (some paths) = lookup-clone_paths name paths

pub lookup-clone :
    (name : String) (c : Conf)
    → lookup name (or_empty (clone c).paths) ≡ cloned_at (lookup name (or_empty c.paths))
unfolding clone
lookup-clone name c = lookup-clone_map name c.paths

-- A path with its IPs sorted.
abbrev pub sorted_at : Option (Option Settings) → Option (Option Settings)
sorted_at none = none
sorted_at (some none) = some none
sorted_at (some (some s)) =
    some
      (some (record s { publish = clone_credentials s.publish; read = clone_credentials s.read }))

-- A clone of a settled path is filled in to what it was, with its IPs sorted.
settled_twice :
    (c : Conf) (name : String)
    → IsSettled c
    → filled_at name (cloned_at (lookup name (or_empty c.paths)))
      ≡ sorted_at (lookup name (or_empty c.paths))
unfolding IsSettled filled_at clone_path clone_settings
settled_twice c name h = elim (Option-cases (lookup name (or_empty c.paths))) [
  | inl missing ↦ ap (λ o. filled_at name (cloned_at o)) missing ∙ ap sorted_at (sym missing)
  | inr (x, there) ↦
      let (s, plain, eq) = h name x there in
      ap (λ o. filled_at name (cloned_at o)) (there ∙ ap some eq)
      ∙ ap (λ t. some (some t))
          (filled_twice name s (clone_credentials (filled name s).publish)
            (clone_credentials (filled name s).read) plain)
      ∙ ap sorted_at (sym (there ∙ ap some eq))
]

-- The request is about the path of this name.
abbrev pub is_named : Option String → String → Bool
is_named none name = false
is_named (some n) name = str_eq n name

abbrev pub is_about : ConfigRequest → String → Bool
is_about (config_set i) name = false
is_about (paths_add param i) name = is_named (param_name param) name
is_about (paths_edit param i) name = is_named (param_name param) name
is_about (paths_delete param) name = is_named (param_name param) name

with_param-other :
    (o : Option String) (i : Option PathFields) (f : String → PathFields → Conf → Settings)
    (c : Conf) (name : String)
    → is_named o name ≡ false
    → lookup name (or_empty (with_param o i (λ n j d. with_path n (f n j d) d) c).paths)
      ≡ lookup name (or_empty c.paths)
unfolding set_paths
with_param-other none i f c name h = refl
with_param-other (some n) none f c name h = refl
with_param-other (some n) (some i) f c name h =
    ground (arith, h, lookup-insert n name (some (f n i c)) (or_empty c.paths))

without_param-other :
    (o : Option String) (c : Conf) (name : String)
    → is_named o name ≡ false
    → lookup name (or_empty (without_param o c).paths) ≡ lookup name (or_empty c.paths)
unfolding set_paths
without_param-other none c name h = refl
without_param-other (some n) c name h = ground (arith, h, lookup-delete n name (or_empty c.paths))

-- A request proposes nothing for the paths that it is not about.
proposed-other :
    (q : ConfigRequest) (c : Conf) (name : String)
    → is_about q name ≡ false
    → lookup name (or_empty (proposed q c).paths) ≡ lookup name (or_empty c.paths)
unfolding fill_conf
proposed-other (config_set none) c name h = refl
proposed-other (config_set (some i)) c name h = refl
proposed-other (paths_add param i) c name h =
    with_param-other (param_name param) i (λ n j d. fill_path j empty_settings) c name h
proposed-other (paths_edit param i) c name h =
    with_param-other (param_name param) i
      (λ n j d. fill_path j (settings_of (lookup n (or_empty d.paths)))) c name h
proposed-other (paths_delete param) c name h = without_param-other (param_name param) c name h

-- A request on one path, or on the settings of the server, leaves every other path of a settled
-- configuration as it was, or sorts its IPs; this says nothing of the two names that the check takes
-- for each other.
pub handle-other :
    (p : Parsers) (low_latency : ℕ) (q : ConfigRequest) (a : Api) (name : String)
    → IsSettled a.conf
    → is_about q name ≡ false
    → str_eq "all" name ≡ false
    → str_eq "~^.*$" name ≡ false
    → (lookup name (or_empty (handle p low_latency q a).1.conf.paths)
        ≡ lookup name (or_empty a.conf.paths))
      ⊎ (lookup name (or_empty (handle p low_latency q a).1.conf.paths)
          ≡ sorted_at (lookup name (or_empty a.conf.paths)))
handle-other p low_latency q a name settled other h k = elim (handle-Outcome p low_latency q a) [
  | inl (refusal, same) ↦ inl (ap (λ r. lookup name (or_empty r.1.conf.paths)) same)
  | inr (admitted, status, checked, sent) ↦ inr (
      check_conf-filled p low_latency (proposed q (clone a.conf)) (handle p low_latency q a).1.conf
        name checked
      ∙ ap (filled_at name) (
          lookup-resolve_all name (or_empty (proposed q (clone a.conf)).paths) h k
          ∙ proposed-other q (clone a.conf) name other
          ∙ lookup-clone name a.conf)
      ∙ settled_twice a.conf name settled)
]
