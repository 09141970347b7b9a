-- ===== src/Core/PathManager/Sets.antt =====
-- The sets of paths of internal/core/path_manager.go, and the two maps as functions of their keys.
use Prim.Native.String.{String}
use text.Mathlib.Text.{◌==◌ as str_eq}
use rtc_simple_server.Base.{
  none, some, List, [], ◌∷◌, ◌≡◌, ◌≢◌, ◌⊎◌, inl, inr, refl, arith, if◌then◌else◌, ◌==◌, Bool-cases,
}
use rtc_simple_server.Base.Text.{lookup, lookup-insert, lookup-delete}
use rtc_simple_server.Core.PathManager.Defs.{
  PathRef, Manager, add_ref, remove_ref, by_conf, create_path, remove_path,
}

abbrev pub Has : PathRef → List PathRef → Type 0
Has r [] = ⊥
Has r (s ∷ ss) = (s ≡ r) ⊎ Has r ss

pub Has-add_ref_self : (r : PathRef) (ss : List PathRef) → Has r (add_ref r ss)
unfolding add_ref
Has-add_ref_self r [] = inl refl
Has-add_ref_self r (s ∷ ss) = elim (Bool-cases (s.id == r.id)) [
  | inl e ↦ rw e (inl refl)
  | inr e ↦ rw e (inr (Has-add_ref_self r ss))
]

pub Has-add_ref :
    (r t : PathRef) (ss : List PathRef) → t.id ≢ r.id → Has t ss → Has t (add_ref r ss)
unfolding add_ref
Has-add_ref r t [] n h = absurd h
Has-add_ref r t (s ∷ ss) n h = ground (arith, Has-add_ref r t ss n)

pub Has-of_add_ref : (r t : PathRef) (ss : List PathRef) → Has t (add_ref r ss) → (t ≡ r) ⊎ Has t ss
unfolding add_ref
Has-of_add_ref r t [] h = ground (arith, h)
Has-of_add_ref r t (s ∷ ss) h = ground (arith, Has-of_add_ref r t ss)

pub Has-remove_ref :
    (r t : PathRef) (ss : List PathRef) → t.id ≢ r.id → Has t ss → Has t (remove_ref r ss)
unfolding remove_ref
Has-remove_ref r t [] n h = absurd h
Has-remove_ref r t (s ∷ ss) n h = ground (arith, Has-remove_ref r t ss n)

pub Has-of_remove_ref :
    (r t : PathRef) (ss : List PathRef) → Has t (remove_ref r ss) → Has t ss × (t.id ≢ r.id)
unfolding remove_ref
Has-of_remove_ref r t [] h = absurd h
Has-of_remove_ref r t (s ∷ ss) h = ground (arith, Has-of_remove_ref r t ss)

-- The path that `create_path` makes.
abbrev pub fresh_ref : String → String → Manager → PathRef
fresh_ref c n m = record { id = m.next_id; name = n; conf_name = c }

module _ (c n : String) (m : Manager) where
  pub paths-create_path :
      (k : String)
      → lookup k (create_path c n m).paths
        ≡ (if str_eq n k then some (fresh_ref c n m) else lookup k m.paths)
  unfolding create_path
  paths-create_path k = lookup-insert n k (fresh_ref c n m) m.paths

  pub by_conf-create_path :
      (k : String)
      → by_conf k (create_path c n m)
        ≡ (if str_eq c k then add_ref (fresh_ref c n m) (by_conf c m) else by_conf k m)
  unfolding create_path
  by_conf-create_path k =
      ground (arith, lookup-insert c k (add_ref (fresh_ref c n m) (by_conf c m)) m.paths_by_conf)

module _ (r : PathRef) (m : Manager) where
  pub paths-remove_path :
      (k : String)
      → lookup k (remove_path r m).paths ≡ (if str_eq r.name k then none else lookup k m.paths)
  unfolding remove_path
  paths-remove_path k = lookup-delete r.name k m.paths

  pub by_conf-remove_path :
      (k : String)
      → by_conf k (remove_path r m)
        ≡ (if str_eq r.conf_name k then remove_ref r (by_conf r.conf_name m) else by_conf k m)
  unfolding remove_path
  by_conf-remove_path k = ground (
    arith,
    lookup-insert r.conf_name k (remove_ref r (by_conf r.conf_name m)) m.paths_by_conf,
    lookup-delete r.conf_name k m.paths_by_conf,
  )
