-- ===== src/Conf/General/Accepted.antt =====
-- What `CheckAndFillMissing` of internal/conf/conf.go ensures of every path.
use Prim.Native.String.{String}
use text.Mathlib.Text.{◌==◌ as str_eq}
use text.Mathlib.TextEquality.{eq_iff}
use rtc_simple_server.Base.{
  Bool-cases, ℕ, ◌≡◌, refl, sym, ap, subst, ◌∙◌, ◌⊎◌, inl, inr, true, false, ◌||◌, Option, none,
  some, List, [], ◌∷◌, arith,
}
use rtc_simple_server.Base.Text.{lookup, insert, lookup-insert}
use rtc_simple_server.Conf.PathName.{is_valid_path_name}
use rtc_simple_server.Conf.Settings.{Camera, Settings, seen, begins_with_tilde}
use rtc_simple_server.Conf.Check.{good, Parsers, Context}
use rtc_simple_server.Conf.Check.Path.{check_and_fill_missing}
use rtc_simple_server.Conf.Check.Accepted.{
  check_and_fill_missing-IsChecked, check_and_fill_missing_name,
}
use rtc_simple_server.Conf.General.{Conf, any}
use rtc_simple_server.Conf.General.Paths.{
  ConfResult, ◌>>=◌, check_general, check_rtsp_conf, resolve_all, insert_sorted, sorted_names,
  settings_of, context, path_checked, check_path, check_paths, or_empty, check_conf, refused,
  accepted,
}
use rtc_simple_server.Core.Path.Invariant.Defs.{IsChecked}

pub inversion :
    {A B : Type 0} (x : ConfResult A) (k : A → ConfResult B) (b : B)
    → x >>= k ≡ accepted b
    → (a : A) × (x ≡ accepted a) × (k a ≡ accepted b)
inversion (refused e) k b h = absurd (ground (arith, h))
inversion (accepted a) k b h = (a, refl, h)

-- The map as it is while a path is checked, and that path.
abbrev pub settings_at : String → List (String × Option Settings) → Settings
settings_at name paths = settings_of (lookup name paths)

abbrev pub context_at : String → String → List (String × Option Settings) → Context
context_at url name paths = context url (insert name (some (settings_at name paths)) paths)

pub check_path_lem :
    (p : Parsers) (url name : String) (paths later : List (String × Option Settings))
    → check_path p url name paths ≡ accepted later
    → (t : Settings) × (later ≡ insert name (some t) paths)
      × (check_and_fill_missing p (context_at url name paths) name (settings_at name paths)
          ≡ good t)
unfolding check_path
check_path_lem p url name paths later e =
    let (t, et, e1) =
      inversion
        (path_checked
          (check_and_fill_missing p (context_at url name paths) name (settings_at name paths)))
        _ later e in
    (t, ground (arith, e1), ground (arith, et))

-- A name of a path, or a regular expression.
abbrev pub IsNamed : String → Type 0
IsNamed name = (begins_with_tilde name ≡ true) ⊎ (is_valid_path_name name ≡ none)

module _ (p : Parsers) (url : String) (number : Camera → ℕ) where
  -- The map has a path under the name, and the path was accepted.
  abbrev Has : String → List (String × Option Settings) → Type 0
  Has name paths =
      (t : Settings) × (lookup name paths ≡ some (some t))
      × IsChecked (seen number t)
      × IsNamed name

  check_path-Has :
      (name : String) (paths later : List (String × Option Settings))
      → check_path p url name paths ≡ accepted later
      → Has name later
  check_path-Has name paths later e =
      let (t, el, et) = check_path_lem p url name paths later e in
      (
        t,
        ap (lookup name) el
            ∙ lookup-insert name name (some t) paths
            ∙ rw ((eq_iff name name).1 refl) refl,
        check_and_fill_missing-IsChecked p _ name _ t number et,
        check_and_fill_missing_name p _ name _ t et,
      )

  pub check_path-other :
      (name other : String) (paths later : List (String × Option Settings))
      → check_path p url name paths ≡ accepted later
      → str_eq name other ≡ false
      → lookup other later ≡ lookup other paths
  check_path-other name other paths later e h =
      let (t, el, et) = check_path_lem p url name paths later e in
      ap (lookup other) el ∙ lookup-insert name other (some t) paths ∙ rw h refl

  -- A path that was accepted stays, or is accepted again.
  check_paths_keep :
      (names : List String) (paths later : List (String × Option Settings)) (name : String)
      → check_paths p url names paths ≡ accepted later
      → Has name paths
      → Has name later
  unfolding check_paths
  check_paths_keep [] paths later name e h = subst (Has name) (ground (arith, e)) h
  check_paths_keep (first ∷ names) paths later name e h =
      let (next, en, el) = inversion (check_path p url first paths) _ later e in
      let has : Has name next = elim (Bool-cases (str_eq first name)) [
        | inl g ↦
            subst (λ n. Has n next) ((eq_iff first name).0 g) (check_path-Has first paths next en)
        | inr g ↦ let (t, l, k, n) = h in (t, check_path-other first name paths next en g ∙ l, k, n)
      ] in
      check_paths_keep names next later name el has

  check_paths-Has :
      (names : List String) (paths later : List (String × Option Settings)) (name : String)
      → check_paths p url names paths ≡ accepted later
      → any (λ n. str_eq n name) names ≡ true
      → Has name later
  unfolding check_paths
  check_paths-Has [] paths later name e h = absurd (ground (arith, h))
  check_paths-Has (first ∷ names) paths later name e h =
      let (next, en, el) = inversion (check_path p url first paths) _ later e in
      elim (Bool-cases (str_eq first name)) [
        | inl g ↦
            check_paths_keep names next later name el (
              subst (λ n. Has n next) ((eq_iff first name).0 g)
                (check_path-Has first paths next en))
        | inr g ↦ check_paths-Has names next later name el (ground (arith, g, h))
      ]

  pub check_paths-other :
      (names : List String) (paths later : List (String × Option Settings)) (name : String)
      → check_paths p url names paths ≡ accepted later
      → any (λ n. str_eq n name) names ≡ false
      → lookup name later ≡ lookup name paths
  unfolding check_paths
  check_paths-other [] paths later name e h = ap (lookup name) (ground (arith, e))
  check_paths-other (first ∷ names) paths later name e h =
      let (next, en, el) = inversion (check_path p url first paths) _ later e in
      check_paths-other names next later name el (ground (arith, h))
      ∙ check_path-other first name paths next en (ground (arith, h))

pub any-insert_sorted :
    (first name : String) (names : List String)
    → any (λ n. str_eq n name) (insert_sorted first names)
      ≡ (str_eq first name || any (λ n. str_eq n name) names)
unfolding insert_sorted
any-insert_sorted first name [] = refl
any-insert_sorted first name (other ∷ names) = ground (arith, any-insert_sorted first name names)

pub any-sorted_names :
    (name : String) (paths : List (String × Option Settings)) (x : Option Settings)
    → lookup name paths ≡ some x
    → any (λ n. str_eq n name) (sorted_names paths) ≡ true
unfolding sorted_names lookup
any-sorted_names name [] x h = absurd (ground (arith, h))
any-sorted_names name ((key, value) ∷ paths) x h = elim (Bool-cases (str_eq key name)) [
  | inl g ↦ any-insert_sorted key name (sorted_names paths) ∙ rw g refl
  | inr g ↦
      any-insert_sorted key name (sorted_names paths)
      ∙ rw g (any-sorted_names name paths x (rw g at h))
]

-- Every path of an accepted configuration is there, is what a path relies on, and bears a valid name
-- or a regular expression.
pub check_conf_paths :
    (p : Parsers) (low_latency : ℕ) (c d : Conf) (number : Camera → ℕ) (name : String)
    (x : Option Settings)
    → check_conf p low_latency c ≡ accepted d
    → lookup name (or_empty d.paths) ≡ some x
    → (t : Settings) × (x ≡ some t) × IsChecked (seen number t) × IsNamed name
unfolding check_conf
check_conf_paths p low_latency c d number name x e h =
    let (general, eg, e1) = inversion (check_general c.general) _ d e in
    let (rtsp, er, e2) = inversion (check_rtsp_conf c.rtsp) _ d e1 in
    let paths = resolve_all (or_empty c.paths) in
    let url = general.external_authentication_url in
    let (later, el, e3) = inversion (check_paths p url (sorted_names paths) paths) _ d e2 in
    let q : d.paths ≡ some later = ground (arith, e3) in
    let h' : lookup name later ≡ some x = ap (λ o. lookup name (or_empty o)) (sym q) ∙ h in
    elim (Bool-cases (any (λ n. str_eq n name) (sorted_names paths))) [
      | inl g ↦
          let (t, l, k, n) =
            check_paths-Has p url number (sorted_names paths) paths later name el g in
          (t, ground (arith, l, h'), k, n)
      | inr g ↦
          let o = check_paths-other p url number (sorted_names paths) paths later name el g in
          absurd (ground (arith, g, any-sorted_names name paths x (sym o ∙ h')))
    ]
