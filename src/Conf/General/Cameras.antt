-- ===== src/Conf/General/Cameras.antt =====
-- What `CheckAndFillMissing` of internal/conf/conf.go ensures of the paths with a Raspberry Pi camera.
use Prim.Native.String.{String}
use text.Mathlib.Text.{◌==◌ as str_eq}
use text.Mathlib.TextEquality.{eq_iff}
use rtc_simple_server.Base.{
  Bool-cases, ℕ, ◌≡◌, refl, sym, ap, subst, ◌∙◌, ◌≢◌, inl, inr, true, false, Option, none, some,
  List, [], ◌∷◌, arith,
}
use rtc_simple_server.Base.Text.{lookup, insert, lookup-insert_same, lookup-insert_other}
use rtc_simple_server.Conf.Settings.{Settings}
use rtc_simple_server.Conf.Check.{Parsers}
use rtc_simple_server.Conf.Check.SameCamera.{
  same_camera_as-lookup, check_and_fill_missing_camera, check_and_fill_missing_cam_id,
}
use rtc_simple_server.Conf.General.{Conf, any}
use rtc_simple_server.Conf.General.Paths.{
  check_general, check_rtsp_conf, resolve_all, sorted_names, settings_of, check_path, check_paths,
  or_empty, check_conf, accepted,
}
use rtc_simple_server.Conf.General.Accepted.{
  inversion, settings_at, context_at, check_path_lem, any-sorted_names,
}

-- A path with a camera under a name.
abbrev HasCamera : String → ℕ → List (String × Option Settings) → Type 0
HasCamera name id paths =
    (s : Settings) × (lookup name paths ≡ some (some s))
    × (s.source ≡ "rpiCamera")
    × (s.camera.cam_id ≡ id)

settings_HasCamera :
    (name : String) (id : ℕ) (paths : List (String × Option Settings))
    (x : Option (Option Settings))
    → lookup name paths ≡ x
    → (settings_of x).source ≡ "rpiCamera"
    → (settings_of x).camera.cam_id ≡ id
    → HasCamera name id paths
settings_HasCamera name id paths none l r c = absurd (ground (arith, (eq_iff "" "rpiCamera").1 r))
settings_HasCamera name id paths (some none) l r c =
    absurd (ground (arith, (eq_iff "" "rpiCamera").1 r))
settings_HasCamera name id paths (some (some s)) l r c = (s, l, r, c)

module _ (p : Parsers) (url : String) where
  -- A camera that is there after a round was there before.
  check_path_before :
      (name other : String) (id : ℕ) (paths later : List (String × Option Settings))
      → check_path p url name paths ≡ accepted later
      → HasCamera other id later
      → HasCamera other id paths
  check_path_before name other id paths later e (s, l, r, c) =
      let (t, el, et) = check_path_lem p url name paths later e in
      let q = ap (lookup other) (sym el) ∙ l in
      elim (Bool-cases (str_eq name other)) [
        | inr g ↦ (s, sym (lookup-insert_other name other (some t) paths g) ∙ q, r, c)
        | inl g ↦
            let f = (eq_iff name other).0 g in
            let k : t ≡ s = ground (
              arith,
              sym (lookup-insert_same name (some t) paths)
                  ∙ ap (λ n. lookup n (insert name (some t) paths)) f
                  ∙ q,
            ) in
            let (ra, ca) =
              check_and_fill_missing_cam_id p (context_at url name paths) name
                (settings_at name paths) t et (ap (λ s. s.source) k ∙ r) in
            subst (λ n. HasCamera n id paths) ((eq_iff name other).0 g)
              (settings_HasCamera name id paths (lookup name paths) refl ra
                (ca ∙ ap (λ s. s.camera.cam_id) k ∙ c))
      ]

  check_paths_before :
      (names : List String) (other : String) (id : ℕ)
      (paths later : List (String × Option Settings))
      → check_paths p url names paths ≡ accepted later
      → HasCamera other id later
      → HasCamera other id paths
  unfolding check_paths
  check_paths_before [] other id paths later e h = subst (HasCamera other id) (ground (arith, e)) h
  check_paths_before (name ∷ names) other id paths later e h =
      let (next, en, el) = inversion (check_path p url name paths) _ later e in
      check_path_before name other id paths next en
        (check_paths_before names other id next later el h)

  -- The round of a path finds no other path with its camera.
  check_path_unique :
      (name other : String) (id : ℕ) (paths later : List (String × Option Settings))
      → check_path p url name paths ≡ accepted later
      → str_eq other name ≡ false
      → str_eq name other ≡ false
      → HasCamera name id later
      → HasCamera other id paths
      → ⊥
  check_path_unique name other id paths later e n n' (s, l, r, c) (u, lu, ru, cu) =
      let (t, el, et) = check_path_lem p url name paths later e in
      let q = sym (lookup-insert_same name (some t) paths) ∙ ap (lookup name) (sym el) ∙ l in
      let k : t ≡ s = ground (arith, q) in
      let free =
        check_and_fill_missing_camera p (context_at url name paths) name (settings_at name paths) t
          et (ap (λ s. s.source) k ∙ r) in
      let lo = lookup-insert_other name other (some (settings_at name paths)) paths n' ∙ lu in
      same_camera_as-lookup name other t.camera.cam_id
        (insert name (some (settings_at name paths)) paths) u free lo n ru
        (cu ∙ sym c ∙ sym (ap (λ s. s.camera.cam_id) k))

  check_paths_unique :
      (names : List String) (name other : String) (id : ℕ)
      (paths later : List (String × Option Settings))
      → check_paths p url names paths ≡ accepted later
      → any (λ n. str_eq n name) names ≡ true
      → str_eq other name ≡ false
      → str_eq name other ≡ false
      → HasCamera name id later
      → HasCamera other id later
      → ⊥
  unfolding check_paths
  check_paths_unique [] name other id paths later e i n n' h k = ground (arith, i)
  check_paths_unique (first ∷ names) name other id paths later e i n n' h k =
      let (next, en, el) = inversion (check_path p url first paths) _ later e in
      elim (Bool-cases (str_eq first name)) [
        | inl g ↦
            let f = (eq_iff first name).0 g in
            check_path_unique name other id paths next
              (subst (λ m. check_path p url m paths ≡ accepted next) f en) n n'
              (check_paths_before names name id next later el h)
              (check_path_before first other id paths next en
                (check_paths_before names other id next later el k))
        | inr g ↦
            check_paths_unique names name other id next later el (ground (arith, g, i)) n n' h k
      ]

-- No two paths of an accepted configuration use the same Raspberry Pi camera.
pub check_conf_cameras :
    (p : Parsers) (low_latency : ℕ) (c d : Conf) (name other : String) (s t : Settings)
    → check_conf p low_latency c ≡ accepted d
    → lookup name (or_empty d.paths) ≡ some (some s)
    → lookup other (or_empty d.paths) ≡ some (some t)
    → name ≢ other
    → s.source ≡ "rpiCamera"
    → t.source ≡ "rpiCamera"
    → s.camera.cam_id ≢ t.camera.cam_id
unfolding check_conf
check_conf_cameras p low_latency c d name other s t e ls lt n rs rt same =
    let (general, eg, e1) = inversion (check_general c.general) _ d e in
    let (rtsp, er, e2) = inversion (check_rtsp_conf c.rtsp) _ d e1 in
    let paths = resolve_all (or_empty c.paths) in
    let url = general.external_authentication_url in
    let (later, el, e3) = inversion (check_paths p url (sorted_names paths) paths) _ d e2 in
    let q : d.paths ≡ some later = ground (arith, e3) in
    let at : (m : String) → lookup m (or_empty d.paths) ≡ lookup m later =
      λ m. ap (λ o. lookup m (or_empty o)) q in
    let hs : HasCamera name s.camera.cam_id later = (s, sym (at name) ∙ ls, rs, refl) in
    let ht : HasCamera other s.camera.cam_id later = (t, sym (at other) ∙ lt, rt, sym same) in
    let (u, lu, ru, cu) =
      check_paths_before p url (sorted_names paths) name s.camera.cam_id paths later el hs in
    check_paths_unique p url (sorted_names paths) name other s.camera.cam_id paths later el
      (any-sorted_names name paths (some u) lu) (ground (arith, n, eq_iff other name))
      (ground (arith, n, eq_iff name other)) hs ht
