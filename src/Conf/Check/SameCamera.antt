-- ===== src/Conf/Check/SameCamera.antt =====
-- The check of a camera in `checkAndFillMissing` of internal/conf/path.go.
use Prim.Native.String.{String}
use text.Mathlib.Text.{◌==◌ as str_eq}
use text.Mathlib.TextEquality.{eq_iff}
use rtc_simple_server.Base.{
  ◌==◌, if◌then◌else◌, is_some, ==_iff, Bool-cases, ℕ, ◌≡◌, sym, ap, subst, ◌∙◌, ◌≢◌, inl, inr,
  Bool, true, false, Option, none, some, List, [], ◌∷◌, arith,
}
use rtc_simple_server.Base.Text.{lookup}
use rtc_simple_server.Conf.Settings.{Settings, or_text}
use rtc_simple_server.Conf.Check.{good, Parsers, Context}
use rtc_simple_server.Conf.Check.Source.{same_camera_as, check_source, check_camera}
use rtc_simple_server.Conf.Check.Path.{check_and_fill_missing}
use rtc_simple_server.Conf.Check.Stages.{
  Kept-trans, check_source-Kept, check_and_fill_missing_stages,
}

later_none :
    (b : Bool) (key : String) (o : Option String) → (if b then some key else o) ≡ none → o ≡ none
later_none true key o h = absurd (ground (arith, h))
later_none false key o h = h

-- A path that the search passes over is another kind or has another camera.
pub same_camera_as-lookup :
    (name other : String) (id : ℕ) (paths : List (String × Option Settings)) (s : Settings)
    → same_camera_as name id paths ≡ none
    → lookup other paths ≡ some (some s)
    → str_eq other name ≡ false
    → s.source ≡ "rpiCamera"
    → s.camera.cam_id ≢ id
unfolding same_camera_as lookup
same_camera_as-lookup name other id [] s h l n r c = absurd (ground (arith, l))
same_camera_as-lookup name other id ((key, none) ∷ paths) s h l n r c =
    elim (Bool-cases (str_eq key other)) [
      | inl g ↦ absurd (ground (arith, g, l))
      | inr g ↦ same_camera_as-lookup name other id paths s h (rw g at l) n r c
    ]
same_camera_as-lookup name other id ((key, some u) ∷ paths) s h l n r c =
    elim (Bool-cases (str_eq key other)) [
      | inl g ↦
          let q : u ≡ s = ground (arith, rw g at l) in
          let k : key ≡ other = (eq_iff key other).0 g in
          let a : str_eq key name ≡ false = ap (λ k. str_eq k name) k ∙ n in
          let b : str_eq u.source "rpiCamera" ≡ true =
            (eq_iff u.source "rpiCamera").1 (ap (λ s. s.source) q ∙ r) in
          let d : (u.camera.cam_id == id) ≡ true =
            (==_iff u.camera.cam_id id).1 (ap (λ s. s.camera.cam_id) q ∙ c) in
          absurd (ground (arith, rw (a, b, d) at h))
      | inr g ↦ same_camera_as-lookup name other id paths s (later_none _ key _ h) (rw g at l) n r c
    ]

or_publisher : (source : String) → or_text "publisher" source ≡ "rpiCamera" → source ≡ "rpiCamera"
or_publisher source h = elim (Bool-cases (str_eq source "")) [
  | inl g ↦
      let q : or_text "publisher" source ≡ "publisher" =
        ap (λ b. if b then "publisher" else source) g in
      absurd (ground (arith, (eq_iff "publisher" "rpiCamera").1 (sym q ∙ h)))
  | inr g ↦ rw g at h
]

check_source_camera :
    (p : Parsers) (conf : Context) (name : String) (s t : Settings)
    → check_source p conf name s ≡ good t
    → s.source ≡ "rpiCamera"
    → same_camera_as name s.camera.cam_id conf.paths ≡ none
unfolding check_source check_camera
check_source_camera p conf name s t e r =
    let f : check_camera conf name (record s { source = "rpiCamera" }) ≡ good t =
      subst (λ u. check_source p conf name (record s { source = u }) ≡ good t) r e in
    elim (Bool-cases (is_some s.regexp)) [
      | inl h ↦ absurd (ground (arith, h, f))
      | inr h ↦ ground (arith, h, f)
    ]

-- A path with a camera that is accepted has it for itself, among the paths that the check was given.
pub check_and_fill_missing_camera :
    (p : Parsers) (conf : Context) (name : String) (s t : Settings)
    → check_and_fill_missing p conf name s ≡ good t
    → t.source ≡ "rpiCamera"
    → same_camera_as name t.camera.cam_id conf.paths ≡ none
check_and_fill_missing_camera p conf name s t e r =
    let (a, b, ea, ec, es, k) = check_and_fill_missing_stages p conf name s t e in
    let (known, l) = check_source-Kept p conf name a b es in
    let m = Kept-trans l k in
    ap (λ i. same_camera_as name i conf.paths) m.cam_id
    ∙ check_source_camera p conf name a b es (sym m.source ∙ r)

-- The check gives a camera to no path, and changes no camera's ID.
pub check_and_fill_missing_cam_id :
    (p : Parsers) (conf : Context) (name : String) (s t : Settings)
    → check_and_fill_missing p conf name s ≡ good t
    → t.source ≡ "rpiCamera"
    → (s.source ≡ "rpiCamera") × (s.camera.cam_id ≡ t.camera.cam_id)
check_and_fill_missing_cam_id p conf name s t e r =
    let (a, b, ea, ec, es, k) = check_and_fill_missing_stages p conf name s t e in
    let (known, l) = check_source-Kept p conf name a b es in
    let m = Kept-trans l k in
    (or_publisher s.source (sym ea ∙ sym m.source ∙ r), sym ec ∙ sym m.cam_id)
