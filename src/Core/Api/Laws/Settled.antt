-- ===== src/Core/Api/Laws/Settled.antt =====
-- The configuration of the API of internal/core/api.go stays one that the check has filled in.
use Prim.Native.String.{String}
use text.Mathlib.Text.{◌==◌ as str_eq}
use rtc_simple_server.Base.{
  if◌then◌else◌, Option-cases, ℕ, ◌≡◌, refl, sym, ap, subst, ◌∙◌, ◌⊎◌, inl, inr, Bool, true, false,
  ◌||◌, Option, none, some, List, [], ◌∷◌, arith,
}
use rtc_simple_server.Base.Text.{lookup, insert, delete, lookup-insert, lookup-delete}
use rtc_simple_server.Conf.Settings.{Settings}
use rtc_simple_server.Conf.Check.{Parsers}
use rtc_simple_server.Conf.General.{Conf}
use rtc_simple_server.Conf.General.Paths.{
  accepted, empty_settings, settings_of, or_empty, resolve_all, check_conf,
}
use rtc_simple_server.Conf.General.Filled.{filled_at, check_conf-filled, lookup-resolve_all}
use rtc_simple_server.Conf.Values.{clone_credentials}
use rtc_simple_server.Conf.Values.Laws.{count, count-sort}
use rtc_simple_server.Core.Api.Fields.{PathFields, fill_path, fill_conf}
use rtc_simple_server.Core.Api.Config.{
  Api, clone_settings, clone_path, clone, param_name, set_paths, ConfigRequest, config_set,
  paths_add, paths_edit, paths_delete, handle,
}
use rtc_simple_server.Core.Api.Laws.Outcome.{
  with_path, with_param, without_param, proposed, handle-Outcome,
}
use rtc_simple_server.Core.Api.Laws.Paths.{
  IsSettled, cloned_at, sorted_at, lookup-clone, is_about, handle-other,
}

-- No path has brought a regular expression.
unfoldable pub IsPlain : List (String × Option Settings) → Type 0
unfolding lookup
IsPlain paths = (name : String) → (settings_of (lookup name paths)).regexp ≡ none

insert-IsPlain :
    (key : String) (x : Option Settings) (paths : List (String × Option Settings))
    → (settings_of (some x)).regexp ≡ none
    → IsPlain paths
    → IsPlain (insert key x paths)
unfolding IsPlain
insert-IsPlain key x paths h plain name =
    ap (λ o. (settings_of o).regexp) (lookup-insert key name x paths) ∙ either (str_eq key name)
  where
    either : (b : Bool) → (settings_of (if b then some x else lookup name paths)).regexp ≡ none
    either true = h
    either false = plain name

delete-IsPlain :
    (key : String) (paths : List (String × Option Settings))
    → IsPlain paths
    → IsPlain (delete key paths)
unfolding IsPlain
delete-IsPlain key paths plain name =
    ap (λ o. (settings_of o).regexp) (lookup-delete key name paths) ∙ either (str_eq key name)
  where
    either : (b : Bool) → (settings_of (if b then none else lookup name paths)).regexp ≡ none
    either true = refl
    either false = plain name

resolve_all-IsPlain :
    (paths : List (String × Option Settings)) → IsPlain paths → IsPlain (resolve_all paths)
unfolding resolve_all IsPlain
resolve_all-IsPlain paths plain = elim (Option-cases (lookup "all" paths)) [
  | inl missing ↦ rw (missing, resolve_all) plain
  | inr (x, there) ↦
      rw (there, resolve_all)
        (delete-IsPlain "all" (insert "~^.*$" x paths) (
          insert-IsPlain "~^.*$" x paths
            (ap (λ o. (settings_of o).regexp) (sym there) ∙ plain "all") plain))
]

-- A check of paths that bring no regular expression gives a settled configuration.
pub check_conf-IsSettled :
    (p : Parsers) (low_latency : ℕ) (c d : Conf)
    → IsPlain (or_empty c.paths)
    → check_conf p low_latency c ≡ accepted d
    → IsSettled d
unfolding IsSettled IsPlain filled_at
check_conf-IsSettled p low_latency c d plain e name x h =
    let paths = resolve_all (or_empty c.paths) in
    let found = sym (check_conf-filled p low_latency c d name e) ∙ h in
    elim (Option-cases (lookup name paths)) [
      | inl missing ↦ cc (missing, found)
      | inr (y, there) ↦ (
        settings_of (some y),
        ap (λ o. (settings_of o).regexp) (sym there)
            ∙ resolve_all-IsPlain (or_empty c.paths) plain name,
        cc (found, there),
      )
    ]

cloned_at_plain : (o : Option (Option Settings)) → (settings_of (cloned_at o)).regexp ≡ none
unfolding clone_path clone_settings
cloned_at_plain none = refl
cloned_at_plain (some none) = refl
cloned_at_plain (some (some s)) = refl

clone-IsPlain : (c : Conf) → IsPlain (or_empty (clone c).paths)
unfolding IsPlain
clone-IsPlain c name =
    ap (λ o. (settings_of o).regexp) (lookup-clone name c)
    ∙ cloned_at_plain (lookup name (or_empty c.paths))

with_param-IsPlain :
    (o : Option String) (i : Option PathFields) (f : String → PathFields → Conf → Settings)
    (c : Conf)
    → ((n : String) (j : PathFields) → (f n j c).regexp ≡ none)
    → IsPlain (or_empty c.paths)
    → IsPlain (or_empty (with_param o i (λ n j d. with_path n (f n j d) d) c).paths)
unfolding set_paths
with_param-IsPlain none i f c h plain = plain
with_param-IsPlain (some n) none f c h plain = plain
with_param-IsPlain (some n) (some i) f c h plain =
    insert-IsPlain n (some (f n i c)) (or_empty c.paths) (h n i) plain

without_param-IsPlain :
    (o : Option String) (c : Conf)
    → IsPlain (or_empty c.paths)
    → IsPlain (or_empty (without_param o c).paths)
unfolding set_paths
without_param-IsPlain none c plain = plain
without_param-IsPlain (some n) c plain = delete-IsPlain n (or_empty c.paths) plain

proposed-IsPlain :
    (q : ConfigRequest) (c : Conf)
    → IsPlain (or_empty c.paths)
    → IsPlain (or_empty (proposed q c).paths)
unfolding fill_conf fill_path IsPlain
proposed-IsPlain (config_set none) c plain = plain
proposed-IsPlain (config_set (some i)) c plain = plain
proposed-IsPlain (paths_add param i) c plain =
    with_param-IsPlain (param_name param) i (λ n j d. fill_path j empty_settings) c (λ n j. refl)
      plain
proposed-IsPlain (paths_edit param i) c plain =
    with_param-IsPlain (param_name param) i
      (λ n j d. fill_path j (settings_of (lookup n (or_empty d.paths)))) c (λ n j. plain n) plain
proposed-IsPlain (paths_delete param) c plain = without_param-IsPlain (param_name param) c plain

-- Every request keeps the configuration of the API settled.
pub handle-IsSettled :
    (p : Parsers) (low_latency : ℕ) (q : ConfigRequest) (a : Api)
    → IsSettled a.conf
    → IsSettled (handle p low_latency q a).1.conf
handle-IsSettled p low_latency q a settled = elim (handle-Outcome p low_latency q a) [
  | inl (refusal, same) ↦ subst (λ r. IsSettled r.1.conf) (sym same) settled
  | inr (admitted, status, checked, sent) ↦
      check_conf-IsSettled p low_latency (proposed q (clone a.conf))
        (handle p low_latency q a).1.conf (proposed-IsPlain q (clone a.conf) (clone-IsPlain a.conf))
        checked
]

-- The requests that come to the API, the first at the head.
unfoldable pub handle_all : Parsers → ℕ → List ConfigRequest → Api → Api
unfolding handle
handle_all p low_latency [] a = a
handle_all p low_latency (q ∷ qs) a = handle_all p low_latency qs (handle p low_latency q a).1

-- One of the requests is about the path of this name.
abbrev pub any_about : List ConfigRequest → String → Bool
any_about [] name = false
any_about (q ∷ qs) name = is_about q name || any_about qs name

-- A path but for the IPs of its credentials.
abbrev pub without_ips : Option (Option Settings) → Option (Option Settings)
without_ips none = none
without_ips (some none) = some none
without_ips (some (some s)) =
    some (
      some
        (record s { publish = record s.publish { ips = [] }; read = record s.read { ips = [] } }))

-- How many of the IPs that may publish, and that may read, are as the test says.
abbrev pub publish_ips : (String → Bool) → Option (Option Settings) → ℕ
publish_ips f none = 0
publish_ips f (some none) = 0
publish_ips f (some (some s)) = count f s.publish.ips

abbrev pub read_ips : (String → Bool) → Option (Option Settings) → ℕ
read_ips f none = 0
read_ips f (some none) = 0
read_ips f (some (some s)) = count f s.read.ips

-- Two paths, or none, that differ in the order of their IPs at most.
abbrev pub SameButOrder : Option (Option Settings) → Option (Option Settings) → Type 0
SameButOrder x y =
    (without_ips x ≡ without_ips y)
    × ((f : String → Bool) → publish_ips f x ≡ publish_ips f y)
    × ((f : String → Bool) → read_ips f x ≡ read_ips f y)

sorted_at-SameButOrder : (x : Option (Option Settings)) → SameButOrder (sorted_at x) x
unfolding clone_credentials
sorted_at-SameButOrder none = (refl, λ f. refl, λ f. refl)
sorted_at-SameButOrder (some none) = (refl, λ f. refl, λ f. refl)
sorted_at-SameButOrder (some (some s)) =
    (refl, λ f. count-sort f s.publish.ips, λ f. count-sort f s.read.ips)

SameButOrder-trans :
    (x y z : Option (Option Settings)) → SameButOrder x y → SameButOrder y z → SameButOrder x z
SameButOrder-trans x y z h k = (h.0 ∙ k.0, λ f. h.1 f ∙ k.1 f, λ f. h.2 f ∙ k.2 f)

one_request : (x y : Option (Option Settings)) → (x ≡ y) ⊎ (x ≡ sorted_at y) → SameButOrder x y
one_request x y (inl e) = subst (SameButOrder x) e (refl, λ f. refl, λ f. refl)
one_request x y (inr e) = subst (λ z. SameButOrder z y) (sym e) (sorted_at-SameButOrder y)

handle_all_keeps :
    (p : Parsers) (low_latency : ℕ) (qs : List ConfigRequest) (a : Api) (name : String)
    → IsSettled a.conf
    → any_about qs name ≡ false
    → str_eq "all" name ≡ false
    → str_eq "~^.*$" name ≡ false
    → SameButOrder
        (lookup name (or_empty (handle_all p low_latency qs a).conf.paths))
        (lookup name (or_empty a.conf.paths))
unfolding handle_all
handle_all_keeps p low_latency [] a name settled other h k = (refl, λ f. refl, λ f. refl)
handle_all_keeps p low_latency (q ∷ qs) a name settled other h k =
    SameButOrder-trans _ _ _
      (handle_all_keeps p low_latency qs (handle p low_latency q a).1 name
        (handle-IsSettled p low_latency q a settled) (ground (arith, other)) h k)
      (one_request _ _ (handle-other p low_latency q a name settled (ground (arith, other)) h k))

-- On an API that began with an accepted configuration whose paths brought no regular expression,
-- as one that was read from a file, requests leave every path that none of them is about as the
-- check left it at the beginning, but for the order of its IPs: all else is the same, and of each kind
-- of IPs there are as many. This says nothing of the names "all" and "~^.*$", which the check takes
-- for each other.
pub handle_all-other :
    (p : Parsers) (low_latency : ℕ) (c : Conf) (qs : List ConfigRequest) (a : Api) (name : String)
    → IsPlain (or_empty c.paths)
    → check_conf p low_latency c ≡ accepted a.conf
    → any_about qs name ≡ false
    → str_eq "all" name ≡ false
    → str_eq "~^.*$" name ≡ false
    → SameButOrder
        (lookup name (or_empty (handle_all p low_latency qs a).conf.paths))
        (filled_at name (lookup name (or_empty c.paths)))
handle_all-other p low_latency c qs a name plain e other h k =
    subst (SameButOrder _)
      (check_conf-filled p low_latency c a.conf name e
        ∙ ap (filled_at name) (lookup-resolve_all name (or_empty c.paths) h k))
      (handle_all_keeps p low_latency qs a name
        (check_conf-IsSettled p low_latency c a.conf plain e) other h k)
