-- ===== src/Conf/Check/Accepted.antt =====
-- What `checkAndFillMissing` of internal/conf/path.go ensures.
use Prim.Native.String.{String}
use text.Mathlib.Text.{◌==◌ as str_eq}
use text.Mathlib.TextEquality.{eq_iff}
use rtc_simple_server.Base.{
  Bool-cases, ℕ, ◌≡◌, refl, sym, ap, subst, ◌∙◌, ◌⊎◌, inl, inr, Bool, true, false, not, ◌&&◌, ◌||◌,
  none, arith,
}
use rtc_simple_server.Conf.PathConf.{
  PathConf, has_static_source, is_publisher, is_redirect, has_on_demand_publisher,
}
use rtc_simple_server.Conf.PathName.{is_valid_path_name}
use rtc_simple_server.Conf.Settings.{Camera, Settings, seen, or_text, begins_with_tilde}
use rtc_simple_server.Conf.Check.{Parsers, Context, good}
use rtc_simple_server.Conf.Check.Source.{check_name, check_source}
use rtc_simple_server.Conf.Check.Path.{
  check_on_demand, check_fallback, check_credentials, check_and_fill_missing,
}
use rtc_simple_server.Core.Path.Invariant.Defs.{IsChecked}
use rtc_simple_server.Conf.Check.Stages.{
  inversion, Kept-refl, Kept-trans, check_credentials-same, check_fallback-same,
  check_on_demand-Kept, check_commands-Kept, is_known, check_source-Kept, check_commands-publisher,
}

check_and_fill_missing-is_known :
    (p : Parsers) (conf : Context) (name : String) (s t : Settings)
    → check_and_fill_missing p conf name s ≡ good t
    → (is_known t.source ≡ true)
      × (str_eq t.run_on_demand "" ≡ false → str_eq t.source "publisher" ≡ true)
unfolding check_and_fill_missing
check_and_fill_missing-is_known p conf name s t e =
    let (a, ea, e1) = inversion (check_name p name s) _ t e in
    let a' = record a { source = or_text "publisher" a.source } in
    let (b, eb, e2) = inversion (check_source p conf name a') _ t e1 in
    let (c, ec, e3) = inversion (check_on_demand b) _ t e2 in
    let (d, ed, e4) = inversion (check_fallback p c) _ t e3 in
    let (f, ef, e5) = inversion (check_credentials conf d) _ t e4 in
    let (known, kb) = check_source-Kept p conf name a' b eb in
    let kf = Kept-trans (check_on_demand-Kept b c ec) (
      Kept-trans (Kept-refl (check_fallback-same p c d ed))
        (Kept-refl (check_credentials-same conf d f ef))) in
    let kt = check_commands-Kept f t e5 in
    let k = Kept-trans kb (Kept-trans kf kt) in
    (
      ap is_known k.source ∙ known,
      λ h.
          ap (λ u. str_eq u "publisher") kt.source
          ∙ check_commands-publisher f t e5 (ap (λ u. str_eq u "") (sym kt.run_on_demand) ∙ h),
    )

and_false : (a : Bool) → (a && false) ≡ false
and_false true = refl
and_false false = refl

kinds :
    (c : PathConf)
    → is_known c.source ≡ true
    → is_publisher c ≡ not (has_static_source c || is_redirect c)
unfolding is_publisher has_static_source is_redirect
kinds c h = elim (Bool-cases (str_eq c.source "publisher")) [
  | inl e ↦
      let q = (eq_iff c.source "publisher").0 e in
      subst
        (λ s.
          is_publisher (record c { source = s })
          ≡ not (
              has_static_source (record c { source = s }) || is_redirect (record c { source = s })))
        (sym q) refl
  | inr e ↦ ground (arith, e, h)
]

exclusive : (c : PathConf) → (has_static_source c && is_redirect c) ≡ false
unfolding has_static_source is_redirect
exclusive c = elim (Bool-cases (str_eq c.source "redirect")) [
  | inl e ↦
      let q = (eq_iff c.source "redirect").0 e in
      subst
        (λ s.
          (has_static_source (record c { source = s }) && is_redirect (record c { source = s }))
          ≡ false)
        (sym q) refl
  | inr e ↦ ap (λ b. has_static_source c && b) e ∙ and_false (has_static_source c)
]

-- A configuration that the check accepts is what a path relies on: its source is a publisher, a
-- static source or a redirect, of these just one, and a command on demand goes with publishers only.
pub check_and_fill_missing-IsChecked :
    (p : Parsers) (conf : Context) (name : String) (s t : Settings) (number : Camera → ℕ)
    → check_and_fill_missing p conf name s ≡ good t
    → IsChecked (seen number t)
unfolding has_on_demand_publisher is_publisher
check_and_fill_missing-IsChecked p conf name s t number e =
    let (known, demand) = check_and_fill_missing-is_known p conf name s t e in
    record {
      kinds = kinds (seen number t) known;
      exclusive = exclusive (seen number t);
      demand = λ h. demand (ground (arith, h));
    }

-- The name is that of a path, or a regular expression.
pub check_and_fill_missing_name :
    (p : Parsers) (conf : Context) (name : String) (s t : Settings)
    → check_and_fill_missing p conf name s ≡ good t
    → (begins_with_tilde name ≡ true) ⊎ (is_valid_path_name name ≡ none)
unfolding check_and_fill_missing check_name
check_and_fill_missing_name p conf name s t e =
    let (a, ea, e1) = inversion (check_name p name s) _ t e in
    elim (Bool-cases (begins_with_tilde name)) [
      | inl h ↦ inl h
      | inr h ↦ inr (ground (arith, h, ea))
    ]
