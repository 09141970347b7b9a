-- ===== src/Core/PathManager/Invariant.antt =====
-- The two maps of internal/core/path_manager.go agree.
use Prim.Native.String.{String}
use text.Mathlib.Text.{◌==◌ as str_eq}
use text.Mathlib.TextEquality.{eq_iff}
use text.Mathlib.TextPositions.{eq_refl}
use rtc_simple_server.Base.{
  ◌+◌, ◌<◌, none, some, ◌≡◌, ◌≢◌, ◌⊎◌, inl, inr, refl, sym, subst, arith, Bool-cases,
}
use rtc_simple_server.Base.Text.{lookup}
use rtc_simple_server.Core.PathManager.Defs.{PathRef, Manager, by_conf, create_path, remove_path}
use rtc_simple_server.Core.PathManager.Sets.{
  Has, Has-add_ref_self, Has-add_ref, Has-of_add_ref, Has-remove_ref, Has-of_remove_ref, fresh_ref,
  paths-create_path, by_conf-create_path, paths-remove_path, by_conf-remove_path,
}

-- A path stands in `paths` under its name and in `pathsByConf` under its configuration, in both or in
-- neither, and no two paths are the same.
pub record Inv (m : Manager) : Type 0 where
  pub named :
      (n : String) (r : PathRef) → lookup n m.paths ≡ some r → (r.name ≡ n) × (r.id < m.next_id)
  pub indexed :
      (n : String) (r : PathRef) → lookup n m.paths ≡ some r → Has r (by_conf r.conf_name m)
  pub listed :
      (c : String) (r : PathRef)
      → Has r (by_conf c m)
      → (r.conf_name ≡ c) × (lookup r.name m.paths ≡ some r)
  pub distinct :
      (n k : String) (r s : PathRef)
      → lookup n m.paths ≡ some r
      → lookup k m.paths ≡ some s
      → r.id ≡ s.id
      → n ≡ k

pub next_id-create_path : (c n : String) (m : Manager) → (create_path c n m).next_id ≡ m.next_id + 1
unfolding create_path
next_id-create_path c n m = refl

pub next_id-remove_path : (r : PathRef) (m : Manager) → (remove_path r m).next_id ≡ m.next_id
unfolding remove_path
next_id-remove_path r m = refl

module _ (c n : String) (m : Manager) (v : Inv m) (new : lookup n m.paths ≡ none) where
  create_named :
      (k : String) (r : PathRef)
      → lookup k (create_path c n m).paths ≡ some r
      → (r.name ≡ k) × (r.id < (create_path c n m).next_id)
  create_named k r e =
      ground
        (arith, eq_iff n k, paths-create_path c n m k, next_id-create_path c n m, v.named k r, e)

  -- A path that was there before keeps its place.
  old_indexed :
      (k : String) (r : PathRef)
      → lookup k m.paths ≡ some r
      → Has r (by_conf r.conf_name (create_path c n m))
  old_indexed k r e = elim (Bool-cases (str_eq c r.conf_name)) [
    | inl h ↦
        rw (by_conf-create_path c n m r.conf_name, h)
          (Has-add_ref (fresh_ref c n m) r _ (ground (arith, v.named k r e))
            (subst (λ x. Has r (by_conf x m)) (sym ((eq_iff c r.conf_name).0 h)) (v.indexed k r e)))
    | inr h ↦ rw (by_conf-create_path c n m r.conf_name, h) (v.indexed k r e)
  ]

  fresh_indexed : Has (fresh_ref c n m) (by_conf c (create_path c n m))
  fresh_indexed =
      rw (by_conf-create_path c n m c, eq_refl c) (Has-add_ref_self (fresh_ref c n m) (by_conf c m))

  create_indexed :
      (k : String) (r : PathRef)
      → lookup k (create_path c n m).paths ≡ some r
      → Has r (by_conf r.conf_name (create_path c n m))
  create_indexed k r e = elim (Bool-cases (str_eq n k)) [
    | inl h ↦
        subst (λ x. Has x (by_conf x.conf_name (create_path c n m)))
          (ground (arith, paths-create_path c n m k, e, h)) fresh_indexed
    | inr h ↦ old_indexed k r (ground (arith, paths-create_path c n m k, e, h))
  ]

  create_listed :
      (k : String) (r : PathRef)
      → Has r (by_conf k (create_path c n m))
      → (r.conf_name ≡ k) × (lookup r.name (create_path c n m).paths ≡ some r)
  create_listed k r h = ground (
    arith,
    eq_iff c k,
    eq_iff n r.name,
    eq_iff n n,
    paths-create_path c n m r.name,
    by_conf-create_path c n m k,
    Has-of_add_ref (fresh_ref c n m) r (by_conf c m),
    v.listed k r,
    v.listed c r,
    h,
  )

  create_distinct :
      (k l : String) (r s : PathRef)
      → lookup k (create_path c n m).paths ≡ some r
      → lookup l (create_path c n m).paths ≡ some s
      → r.id ≡ s.id
      → k ≡ l
  create_distinct k l r s e f i = ground (
    arith,
    eq_iff n k,
    eq_iff n l,
    paths-create_path c n m k,
    paths-create_path c n m l,
    v.named k r,
    v.named l s,
    v.distinct k l r s,
    e,
    f,
  )

  pub create_path-Inv : Inv (create_path c n m)
  create_path-Inv = record {
    named = create_named;
    indexed = create_indexed;
    listed = create_listed;
    distinct = create_distinct;
  }

-- No other path of the manager has the name or the number of `r`.
abbrev pub Alone : PathRef → Manager → Type 0
Alone r m =
    (n : String) (s : PathRef) → lookup n m.paths ≡ some s → (n ≡ r.name) ⊎ (s.id ≡ r.id) → s ≡ r

module _ (r : PathRef) (m : Manager) (v : Inv m) (a : Alone r m) where
  remove_named :
      (k : String) (s : PathRef)
      → lookup k (remove_path r m).paths ≡ some s
      → (s.name ≡ k) × (s.id < (remove_path r m).next_id)
  remove_named k s e =
      ground (arith, paths-remove_path r m k, next_id-remove_path r m, v.named k s, e)

  remove_indexed :
      (k : String) (s : PathRef)
      → lookup k (remove_path r m).paths ≡ some s
      → Has s (by_conf s.conf_name (remove_path r m))
  remove_indexed k s e =
      let old : lookup k m.paths ≡ some s = ground (arith, paths-remove_path r m k, e) in
      let other : s.id ≢ r.id = λ i.
        ground (
          arith,
          paths-remove_path r m k,
          eq_iff r.name k,
          v.named k s old,
          a k s old (inr i),
          e,
        ) in
      elim (Bool-cases (str_eq r.conf_name s.conf_name)) [
        | inl h ↦
            rw (by_conf-remove_path r m s.conf_name, h)
              (Has-remove_ref r s _ other (
                subst (λ x. Has s (by_conf x m)) (sym ((eq_iff r.conf_name s.conf_name).0 h))
                  (v.indexed k s old)))
        | inr h ↦ rw (by_conf-remove_path r m s.conf_name, h) (v.indexed k s old)
      ]

  remove_listed :
      (k : String) (s : PathRef)
      → Has s (by_conf k (remove_path r m))
      → (s.conf_name ≡ k) × (lookup s.name (remove_path r m).paths ≡ some s)
  remove_listed k s h = ground (
    arith,
    eq_iff r.conf_name k,
    eq_iff r.name s.name,
    paths-remove_path r m s.name,
    by_conf-remove_path r m k,
    Has-of_remove_ref r s (by_conf r.conf_name m),
    v.listed k s,
    v.listed r.conf_name s,
    a s.name s,
    h,
  )

  remove_distinct :
      (k l : String) (s t : PathRef)
      → lookup k (remove_path r m).paths ≡ some s
      → lookup l (remove_path r m).paths ≡ some t
      → s.id ≡ t.id
      → k ≡ l
  remove_distinct k l s t e f i =
      ground (arith, paths-remove_path r m k, paths-remove_path r m l, v.distinct k l s t, e, f)

  pub remove_path-Inv : Inv (remove_path r m)
  remove_path-Inv = record {
    named = remove_named;
    indexed = remove_indexed;
    listed = remove_listed;
    distinct = remove_distinct;
  }
