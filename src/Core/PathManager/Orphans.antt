-- ===== src/Core/PathManager/Orphans.antt =====
-- Which paths are left by the two loops of a reload in internal/core/path_manager.go.
use Prim.Native.String.{String}
use text.Mathlib.TextEquality.{eq_iff}
use text.Mathlib.TextPositions.{eq_refl}
use rtc_simple_server.Base.{
  if◌then◌else◌, is_some, Option-cases, ◌≡◌, refl, sym, subst, ◌≢◌, ◌⊎◌, inl, inr, Bool, true,
  false, none, some, List, [], ◌∷◌, arith,
}
use rtc_simple_server.Base.Text.{lookup}
use rtc_simple_server.Conf.PathConf.{PathConf, equal}
use rtc_simple_server.Core.PathManager.Defs.{
  path_closed, path_reloaded, PathRef, Manager, emit, path_conf_can_be_updated, by_conf,
  create_path, remove_path, close_paths, reload_paths, reload_conf, reload_confs, add_plain_path,
  add_plain_paths, path_reloaded,
}
use rtc_simple_server.Core.PathManager.Sets.{Has, paths-create_path, paths-remove_path}
use rtc_simple_server.Core.PathManager.Invariant.{Inv}
use rtc_simple_server.Core.PathManager.Events.{reload_conf-Inv}

module _ (k : String) (r : PathRef) where
  pub Has-close_paths :
      (qs : List PathRef) (m : Manager)
      → r.name ≡ k
      → lookup k (close_paths qs m).paths ≡ some r
      → (lookup k m.paths ≡ some r) × ¬ Has r qs
  unfolding close_paths
  Has-close_paths [] m n e = (e, λ h. h)
  Has-close_paths (q ∷ qs) m n e =
      let (f, h) = Has-close_paths qs (emit (path_closed q) (remove_path q m)) n e in
      ground (arith, paths-remove_path q m k, eq_iff q.name k, f, h)

  paths-reload_paths :
      (qs : List PathRef) (c : PathConf) (m : Manager) → (reload_paths qs c m).paths ≡ m.paths
  unfolding reload_paths
  paths-reload_paths [] c m = refl
  paths-reload_paths (q ∷ qs) c m = paths-reload_paths qs c (emit (path_reloaded q c) m)

  abbrev Keeps : Manager → Manager → Type 0
  Keeps o m = lookup k o.paths ≡ some r → lookup k m.paths ≡ some r

  Keeps-if : (b : Bool) (n o m : Manager) → Keeps n m → Keeps o m → Keeps (if b then n else o) m
  Keeps-if true n o m f g = f
  Keeps-if false n o m f g = g

  close_paths-Keeps : (qs : List PathRef) (m : Manager) → r.name ≡ k → Keeps (close_paths qs m) m
  close_paths-Keeps qs m n e = (Has-close_paths qs m n e).0

  -- A round of the first loop of a reload creates no path.
  pub reload_conf-Keeps :
      (confs : List (String × PathConf)) (name : String) (c : PathConf) (m : Manager)
      → r.name ≡ k
      → Keeps (reload_conf confs name c m) m
  unfolding reload_conf
  reload_conf-Keeps confs name c m n = elim (Option-cases (lookup name confs)) [
    | inl f ↦ rw (f, reload_conf) (close_paths-Keeps (by_conf name m) m n)
    | inr (d, f) ↦
        rw (f, reload_conf)
          (Keeps-if (equal d c) m _ m (λ e. e)
            (Keeps-if (path_conf_can_be_updated c d) _ _ m
              (λ e. rw (sym (paths-reload_paths (by_conf name m) d m)) e)
              (close_paths-Keeps (by_conf name m) m n)))
  ]

  -- A configuration that is gone loses its paths.
  pub conf_name-reload_conf :
      (confs : List (String × PathConf)) (name : String) (c : PathConf) (m : Manager)
      → Inv m
      → r.name ≡ k
      → lookup k (reload_conf confs name c m).paths ≡ some r
      → lookup name confs ≡ none
      → r.conf_name ≢ name
  unfolding reload_conf
  conf_name-reload_conf confs name c m v n e f s =
      let same : reload_conf confs name c m ≡ close_paths (by_conf name m) m =
        rw (f, reload_conf) refl in
      let (g, h) =
        Has-close_paths (by_conf name m) m n
          (subst (λ (x : Manager). lookup k x.paths ≡ some r) same e) in
      h (subst (λ x. Has r (by_conf x m)) s (v.indexed k r g))

  -- What is left after the first loop belongs to a configuration that stays, if it belonged to one.
  pub paths-reload_confs :
      (confs cs : List (String × PathConf)) (m : Manager)
      → Inv m
      → r.name ≡ k
      → lookup k (reload_confs confs cs m).paths ≡ some r
      → (lookup k m.paths ≡ some r)
        × (is_some (lookup r.conf_name cs) ≡ true → is_some (lookup r.conf_name confs) ≡ true)
  unfolding reload_confs lookup
  paths-reload_confs confs [] m v n e = (e, λ h. absurd (ground (arith, h)))
  paths-reload_confs confs ((name, c) ∷ cs) m v n e =
      let (f, h) =
        paths-reload_confs confs cs (reload_conf confs name c m) (reload_conf-Inv confs name c m v)
          n e in
      (reload_conf-Keeps confs name c m n f, stays confs cs name c m v n f h)
    where
      stays :
          (confs cs : List (String × PathConf)) (name : String) (c : PathConf) (m : Manager)
          → Inv m
          → r.name ≡ k
          → lookup k (reload_conf confs name c m).paths ≡ some r
          → (is_some (lookup r.conf_name cs) ≡ true → is_some (lookup r.conf_name confs) ≡ true)
          → is_some (lookup r.conf_name ((name, c) ∷ cs)) ≡ true
          → is_some (lookup r.conf_name confs) ≡ true
      stays confs cs name c m v n f h i = elim (Option-cases (lookup name confs)) [
        | inl g ↦
            ground
              (arith, i, h, eq_iff name r.conf_name, conf_name-reload_conf confs name c m v n f g)
        | inr (d, g) ↦ ground (arith, i, h, eq_iff name r.conf_name, g)
      ]

  -- The second loop creates paths for configurations that are in force.
  pub paths-add_plain_paths :
      (cs : List (String × PathConf)) (m : Manager)
      → lookup k (add_plain_paths cs m).paths ≡ some r
      → (lookup k m.paths ≡ some r) ⊎ (is_some (lookup r.conf_name cs) ≡ true)
  unfolding add_plain_paths add_plain_path lookup
  paths-add_plain_paths [] m e = inl e
  paths-add_plain_paths ((name, c) ∷ cs) m e =
      elim (paths-add_plain_paths cs (add_plain_path name c m) e) [
        | inl f ↦ ground (arith, f, paths-create_path name name m k, eq_refl name)
        | inr h ↦ inr (ground (arith, h))
      ]

pub path_confs-add_plain_paths :
    (cs : List (String × PathConf)) (m : Manager) → (add_plain_paths cs m).path_confs ≡ m.path_confs
unfolding add_plain_paths add_plain_path create_path
path_confs-add_plain_paths [] m = refl
path_confs-add_plain_paths ((name, c) ∷ cs) m =
    ground (arith, path_confs-add_plain_paths cs (add_plain_path name c m))
