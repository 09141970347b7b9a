-- ===== src/Core/Resources/Laws/Told.antt =====
-- What the path manager and the API know of the configuration in `createResources` and
-- `closeResources` of internal/core/core.go.
use rtc_simple_server.Base.{
  ◌==◌, if◌then◌else◌, is_some, ==_iff, Bool-cases, ◌≡◌, refl, sym, ap, subst, ◌∙◌, ◌⊎◌, inl, inr,
  Bool, true, false, not, ◌&&◌, Option, none, some, [], ◌∷◌, arith,
}
use rtc_simple_server.Core.Resources.Settings.{CoreConf, Part, part_code, paths, path_manager}
use rtc_simple_server.Core.Resources.Defs.{
  Instance, Core, set_part, create, closes, close_path_manager, settings_differ, close_from,
  close_order, paths_of, pass_paths, pass_conf, close_resources,
}
use rtc_simple_server.Core.Resources.Laws.Closed.{
  pass_paths-parts, close_from-told, close_resources-parts,
}

-- A part that is there was told this.
abbrev pub Told {ℓ} : {A : Type ℓ} → A → A → Option Instance → Type ℓ
Told x y none = Unit
Told x y (some i) = x ≡ y

-- The API has the configuration y, or, after a reload that it has asked for, was told nothing since.
abbrev pub ToldApi : Bool → Option CoreConf → Option CoreConf → Option Instance → Type 0
ToldApi false x y o = Told x y o
ToldApi true x y o = Told x y o ⊎ Told x none o

-- The path manager has the paths of the configuration, and the API has the configuration, unless it
-- was the API that set it.
unfoldable pub Informed : Bool → Core → Type 0
Informed called_by_api p =
    Told p.manager_paths (p.conf paths) (p.parts path_manager)
    × ToldApi called_by_api p.api_told (some p.conf) (p.parts Part.api)

Told-if {ℓ} :
    {A : Type ℓ}
    → (b : Bool) (x y : A) (v o : Option Instance) → Told x y o
    → Told (if b then y else x) y (if b then v else o)
Told-if true x y none o h = tt
Told-if true x y (some i) o h = refl
Told-if false x y v o h = h

ToldApi-if :
    (called b : Bool) (x y : Option CoreConf) (v o : Option Instance)
    → ToldApi called x y o
    → ToldApi called (if b then y else x) y (if b then v else o)
ToldApi-if false b x y v o h = Told-if b x y v o h
ToldApi-if true true x y v o h = inl (made v)
  where
    made : (v : Option Instance) → Told y y v
    made none = tt
    made (some i) = refl
ToldApi-if true false x y v o h = h

pub create-Informed :
    (called_by_api : Bool) (k : Part) (p : Core)
    → Informed called_by_api p
    → Informed called_by_api (create k p)
unfolding Informed create set_part
create-Informed called_by_api k p h = (
  Told-if (part_code k == part_code path_manager) p.manager_paths (p.conf paths) _
      (p.parts path_manager) h.0,
  ToldApi-if called_by_api (part_code k == part_code Part.api) p.api_told (some p.conf) _
      (p.parts Part.api) h.1,
)

pub Informed-any : (called_by_api : Bool) (p : Core) → Informed called_by_api p → Informed true p
unfolding Informed
Informed-any false p h = (h.0, inl h.1)
Informed-any true p h = h

-- What is told on the way: the paths, if they differ, and the configuration.
module _ (new : CoreConf) (called_by_api : Bool) (p : Core) where
  abbrev paths_change : Bool
  paths_change =
      not (close_path_manager (some new) p.conf) && settings_differ (paths ∷ []) (some new) p.conf

  abbrev told_paths : Core
  told_paths = pass_paths paths_change (some new) p

  abbrev api_kept : Bool
  api_kept = is_some (told_paths.parts Part.api) && not (closes Part.api (some new) p.conf)

  abbrev told_conf : Core
  told_conf = pass_conf api_kept called_by_api (some new) told_paths

  close_resources-told :
      ((close_resources (some new) called_by_api p).manager_paths ≡ told_conf.manager_paths)
      × ((close_resources (some new) called_by_api p).api_told ≡ told_conf.api_told)
  unfolding close_resources
  close_resources-told =
      let r = close_from (Part.api ∷ []) (some new) told_conf in
      let first = close_from-told (Part.api ∷ []) (some new) told_conf in
      let others = close_from-told close_order (some new) r in
      (others.0 ∙ first.0, others.1 ∙ first.1)

  told_conf-manager_paths : told_conf.manager_paths ≡ told_paths.manager_paths
  unfolding pass_conf
  told_conf-manager_paths = ground arith

  -- A path manager that is kept has the new paths.
  manager_told :
      p.manager_paths ≡ p.conf paths
      → closes path_manager (some new) p.conf ≡ false
      → told_paths.manager_paths ≡ new paths
  unfolding pass_paths paths_of closes settings_differ
  manager_told h c = elim (Bool-cases (new paths == p.conf paths)) [
    | inl same ↦ ground (arith, h, c, same, (==_iff (new paths) (p.conf paths)).0 same)
    | inr other ↦ ground (arith, h, c, other)
  ]

  api_kept_lem :
      is_some (p.parts Part.api) ≡ true
      → closes Part.api (some new) p.conf ≡ false
      → api_kept ≡ true
  api_kept_lem there c = ground (
    arith,
    c,
    ap (λ parts. is_some (parts Part.api)) (pass_paths-parts paths_change (some new) p),
    there,
  )

  api_told_lem :
      is_some (p.parts Part.api) ≡ true
      → closes Part.api (some new) p.conf ≡ false
      → told_conf.api_told ≡ (if called_by_api then none else some new)
  unfolding pass_conf
  api_told_lem there c = ground (arith, api_kept_lem there c)

Told-map {ℓ m} :
    {A : Type ℓ}
    → {B : Type m} → (x y : A) (z w : B) (o : Option Instance) → (x ≡ y → z ≡ w)
    → Told x y o
    → Told z w o
Told-map x y z w none f h = tt
Told-map x y z w (some i) f h = f h

Told-there {ℓ} :
    {A : Type ℓ} → (x y : A) (o : Option Instance) → (is_some o ≡ true → x ≡ y) → Told x y o
Told-there x y none f = tt
Told-there x y (some i) f = f refl

Told-closed {ℓ} :
    {A : Type ℓ}
    → (b : Bool) (x y : A) (o : Option Instance) → (b ≡ false → Told x y o)
    → Told x y (if b then none else o)
Told-closed true x y o f = tt
Told-closed false x y o f = f refl

-- After the end of `closeResources`, what is left of the two knows the new configuration.
pub begun-Informed :
    (new : CoreConf) (called_by_api : Bool) (p : Core)
    → Informed true p
    → Informed called_by_api (record (close_resources (some new) called_by_api p) { conf = new })
unfolding Informed
begun-Informed new called_by_api p h = (
  subst (Told q.manager_paths (new paths))
      (sym (close_resources-parts _ called_by_api p path_manager))
      (Told-closed (closes path_manager (some new) p.conf) q.manager_paths (new paths)
        (p.parts path_manager)
        (λ c.
          Told-map p.manager_paths (p.conf paths) q.manager_paths (new paths) (p.parts path_manager)
            (λ e.
              (close_resources-told new called_by_api p).0
              ∙ told_conf-manager_paths new called_by_api p
              ∙ manager_told new called_by_api p e c)
            h.0)),
  told_api called_by_api,
)
  where
    q : Core
    q = close_resources (some new) called_by_api p

    there :
        (called : Bool)
        → let r = close_resources (some new) called p in
          Told r.api_told (if called then none else some new) (r.parts Part.api)
    there called =
        let r = close_resources (some new) called p in
        subst (Told r.api_told (if called then none else some new))
          (sym (close_resources-parts (some new) called p Part.api))
          (Told-closed (closes Part.api (some new) p.conf) r.api_told _ (p.parts Part.api) (λ c.
            Told-there r.api_told _ (p.parts Part.api)
              (λ e. (close_resources-told new called p).1 ∙ api_told_lem new called p e c)))

    told_api :
        (called : Bool)
        → let r = close_resources (some new) called p in
          ToldApi called r.api_told (some new) (r.parts Part.api)
    told_api false = there false
    told_api true = inr (there true)
