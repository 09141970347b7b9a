-- ===== src/Conf/General/Filled.antt =====
-- `CheckAndFillMissing` of internal/conf/conf.go leaves every path as it is but for what it fills in.
use Prim.Native.String.{String}
use text.Mathlib.Text.{◌==◌ as str_eq}
use text.Mathlib.TextEquality.{eq_iff}
use rtc_simple_server.Base.{
  if◌then◌else◌, Bool-cases, Option-cases, ℕ, ◌≡◌, refl, sym, ap, subst, ◌∙◌, inl, inr, true, false,
  Option, none, some, List, [], ◌∷◌, arith,
}
use rtc_simple_server.Base.Text.{lookup, insert, lookup-insert, lookup-delete}
use rtc_simple_server.Conf.Settings.{Settings}
use rtc_simple_server.Conf.Check.{Parsers}
use rtc_simple_server.Conf.Check.Filled.{filled, check_and_fill_missing-filled, filled_again}
use rtc_simple_server.Conf.General.{Conf, any}
use rtc_simple_server.Conf.General.Paths.{
  check_general, check_rtsp_conf, resolve_all, sorted_names, settings_of, check_path, check_paths,
  or_empty, check_conf, accepted,
}
use rtc_simple_server.Conf.General.Accepted.{
  inversion, check_path_lem, settings_at, check_path-other, check_paths-other, any-sorted_names,
  any-insert_sorted,
}

-- A path of the map as the check leaves it.
unfoldable pub filled_at : String → Option (Option Settings) → Option (Option Settings)
unfolding filled
filled_at name none = none
filled_at name (some x) = some (some (filled name (settings_of (some x))))

module _ (p : Parsers) (url : String) where
  check_path-filled :
      (name : String) (paths later : List (String × Option Settings))
      → check_path p url name paths ≡ accepted later
      → lookup name later ≡ some (some (filled name (settings_at name paths)))
  check_path-filled name paths later e =
      let (t, el, et) = check_path_lem p url name paths later e in
      ap (lookup name) el
      ∙ lookup-insert name name (some t) paths
      ∙ ap (λ b. if b then some (some t) else lookup name paths) ((eq_iff name name).1 refl)
      ∙ ap (λ s. some (some s)) (check_and_fill_missing-filled p _ name _ t et)

  -- A path that is filled in stays so, whether it is checked again or not.
  check_paths-stays :
      (names : List String) (paths later : List (String × Option Settings)) (name : String)
      (s : Settings)
      → check_paths p url names paths ≡ accepted later
      → lookup name paths ≡ some (some (filled name s))
      → lookup name later ≡ some (some (filled name s))
  unfolding check_paths
  check_paths-stays [] paths later name s e h = ap (lookup name) (ground (arith, e)) ∙ h
  check_paths-stays (first ∷ names) paths later name s e h =
      let (next, en, el) = inversion (check_path p url first paths) _ later e in
      check_paths-stays names next later name s el (elim (Bool-cases (str_eq first name)) [
        | inl same ↦
            let eq = (eq_iff first name).0 same in
            subst (λ n. lookup n next ≡ some (some (filled n (settings_at n paths)))) eq
              (check_path-filled first paths next en)
            ∙ ap (λ o. some (some (filled name (settings_of o)))) h
            ∙ ap (λ t. some (some t)) (filled_again name s)
        | inr other ↦ check_path-other p url (λ c. 0) first name paths next en other ∙ h
      ])

  check_paths-filled :
      (names : List String) (paths later : List (String × Option Settings)) (name : String)
      → check_paths p url names paths ≡ accepted later
      → any (λ n. str_eq n name) names ≡ true
      → lookup name later ≡ some (some (filled name (settings_at name paths)))
  unfolding check_paths
  check_paths-filled [] paths later name e h = absurd (ground (arith, h))
  check_paths-filled (first ∷ names) paths later name e h =
      let (next, en, el) = inversion (check_path p url first paths) _ later e in
      elim (Bool-cases (str_eq first name)) [
        | inl same ↦
            let eq = (eq_iff first name).0 same in
            check_paths-stays names next later name (settings_at name paths) el (
              subst (λ n. lookup n next ≡ some (some (filled n (settings_at n paths)))) eq
                (check_path-filled first paths next en))
        | inr other ↦
            check_paths-filled names next later name el (ground (arith, other, h))
            ∙ ap (λ o. some (some (filled name (settings_of o))))
                (check_path-other p url (λ c. 0) first name paths next en other)
      ]

any-sorted_names-none :
    (name : String) (paths : List (String × Option Settings))
    → lookup name paths ≡ none
    → any (λ n. str_eq n name) (sorted_names paths) ≡ false
unfolding sorted_names lookup
any-sorted_names-none name [] h = refl
any-sorted_names-none name ((key, value) ∷ paths) h = elim (Bool-cases (str_eq key name)) [
  | inl same ↦ absurd (ground (arith, same, h))
  | inr other ↦
      any-insert_sorted key name (sorted_names paths)
      ∙ ground (arith, other, any-sorted_names-none name paths (ground (arith, other, h)))
]

pub check_conf-filled :
    (p : Parsers) (low_latency : ℕ) (c d : Conf) (name : String)
    → check_conf p low_latency c ≡ accepted d
    → lookup name (or_empty d.paths) ≡ filled_at name (lookup name (resolve_all (or_empty c.paths)))
unfolding check_conf filled_at
check_conf-filled p low_latency c d name e =
    let (general, eg, e1) = inversion (check_general c.general) _ d e in
    let (rtsp, er, e2) = inversion (check_rtsp_conf c.rtsp) _ d e1 in
    let paths = resolve_all (or_empty c.paths) in
    let url = general.external_authentication_url in
    let (later, el, e3) = inversion (check_paths p url (sorted_names paths) paths) _ d e2 in
    let q : d.paths ≡ some later = ground (arith, e3) in
    ap (λ o. lookup name (or_empty o)) q ∙ elim (Option-cases (lookup name paths)) [
      | inl missing ↦
          check_paths-other p url (λ c. 0) (sorted_names paths) paths later name el
            (any-sorted_names-none name paths missing)
          ∙ missing
          ∙ ap (filled_at name) (sym missing)
      | inr (x, there) ↦
          check_paths-filled p url (sorted_names paths) paths later name el
            (any-sorted_names name paths x there)
          ∙ ap (λ o. some (some (filled name (settings_of o)))) there
          ∙ ap (filled_at name) (sym there)
    ]

pub lookup-resolve_all :
    (name : String) (paths : List (String × Option Settings))
    → str_eq "all" name ≡ false
    → str_eq "~^.*$" name ≡ false
    → lookup name (resolve_all paths) ≡ lookup name paths
unfolding resolve_all
lookup-resolve_all name paths h k = elim (Option-cases (lookup "all" paths)) [
  | inl missing ↦ rw (missing, resolve_all)
  | inr (s, there) ↦
      rw (there, resolve_all)
        (ground (
          arith,
          h,
          k,
          lookup-delete "all" name (insert "~^.*$" s paths),
          lookup-insert "~^.*$" name s paths,
        ))
]
