-- ===== src/Core/PathManager/Survive.antt =====
-- With which configuration a path outlives a reload in internal/core/path_manager.go.
use Prim.Native.String.{String}
use text.Mathlib.Text.{◌==◌ as str_eq}
use text.Mathlib.TextEquality.{eq_iff}
use rtc_simple_server.Base.{
  if◌then◌else◌, is_some, Bool-cases, Option-cases, ◌<◌, ◌≡◌, refl, sym, ap, subst, ◌∙◌, ◌⊎◌, inl,
  inr, Bool, true, false, not, ◌&&◌, none, some, List, [], ◌∷◌, arith,
}
use rtc_simple_server.Base.Text.{lookup}
use rtc_simple_server.Conf.PathConf.{PathConf, equal, equal_iff}
use rtc_simple_server.Core.PathManager.Defs.{
  Effect, path_closed, path_reloaded, PathRef, Manager, emit, path_conf_can_be_updated, by_conf,
  create_path, remove_path, close_paths, reload_paths, reload_conf, reload_confs, add_plain_path,
  add_plain_paths, conf_reload,
}
use rtc_simple_server.Core.PathManager.Sets.{Has, paths-create_path}
use rtc_simple_server.Core.PathManager.Invariant.{Inv}
use rtc_simple_server.Core.PathManager.Events.{reload_conf-Inv}
use rtc_simple_server.Core.PathManager.Orphans.{
  Has-close_paths, reload_conf-Keeps, conf_name-reload_conf, paths-reload_confs,
}

-- An effect is among those that were sent.
abbrev pub Sent : Effect → List Effect → Type 0
Sent e [] = ⊥
Sent e (x ∷ xs) = (x ≡ e) ⊎ Sent e xs

-- What was sent stays sent, and no path gets its number anew.
record Later (m o : Manager) : Type 0 where
  sent : (e : Effect) → Sent e m.sent → Sent e o.sent
  next_id : o.next_id ≡ m.next_id

Later-same : (m : Manager) → Later m m
Later-same m = record { sent = λ e h. h; next_id = refl }

Later-trans : (m n o : Manager) → Later m n → Later n o → Later m o
Later-trans m n o f g = record {
  sent = λ e h. g.sent e (f.sent e h);
  next_id = g.next_id ∙ f.next_id;
}

close_paths-Later : (qs : List PathRef) (m : Manager) → Later m (close_paths qs m)
unfolding close_paths remove_path
close_paths-Later [] m = Later-same m
close_paths-Later (q ∷ qs) m =
    let n = emit (path_closed q) (remove_path q m) in
    Later-trans m n (close_paths qs n) (record { sent = λ e h. inr h; next_id = refl })
      (close_paths-Later qs n)

reload_paths-Later :
    (qs : List PathRef) (c : PathConf) (m : Manager) → Later m (reload_paths qs c m)
unfolding reload_paths
reload_paths-Later [] c m = Later-same m
reload_paths-Later (q ∷ qs) c m =
    let n = emit (path_reloaded q c) m in
    Later-trans m n (reload_paths qs c n) (record { sent = λ e h. inr h; next_id = refl })
      (reload_paths-Later qs c n)

-- A reload of a configuration reaches each of its paths.
reload_paths-Sent :
    (r : PathRef) (qs : List PathRef) (c : PathConf) (m : Manager)
    → Has r qs
    → Sent (path_reloaded r c) (reload_paths qs c m).sent
unfolding reload_paths
reload_paths-Sent r [] c m h = absurd h
reload_paths-Sent r (q ∷ qs) c m (inl e) =
    (reload_paths-Later qs c (emit (path_reloaded q c) m)).sent (path_reloaded r c)
      (inl (ap (λ x. path_reloaded x c) e))
reload_paths-Sent r (q ∷ qs) c m (inr h) = reload_paths-Sent r qs c (emit (path_reloaded q c) m) h

module _ (confs : List (String × PathConf)) (name : String) (c : PathConf) (m : Manager) where
  -- The three outcomes of a round for a configuration that stays.
  reload_conf-cases :
      (d : PathConf)
      → lookup name confs ≡ some d
      → ((d ≡ c) × (reload_conf confs name c m ≡ m))
        ⊎ ((path_conf_can_be_updated c d ≡ true)
            × (reload_conf confs name c m ≡ reload_paths (by_conf name m) d m))
        ⊎ (reload_conf confs name c m ≡ close_paths (by_conf name m) m)
  unfolding reload_conf
  reload_conf-cases d f = elim (Bool-cases (equal d c)) [
    | inl e ↦ inl ((equal_iff d c).0 e, rw (f, reload_conf, e) refl)
    | inr e ↦ elim (Bool-cases (path_conf_can_be_updated c d)) [
      | inl u ↦ inr (inl (u, rw (f, reload_conf, e, u) refl))
      | inr u ↦ inr (inr (rw (f, reload_conf, e, u) refl))
    ]
  ]

  reload_conf-none :
      lookup name confs ≡ none → reload_conf confs name c m ≡ close_paths (by_conf name m) m
  unfolding reload_conf
  reload_conf-none f = rw (f, reload_conf) refl

  reload_conf-Later : Later m (reload_conf confs name c m)
  reload_conf-Later = elim (Option-cases (lookup name confs)) [
    | inl f ↦ subst (Later m) (sym (reload_conf-none f)) (close_paths-Later (by_conf name m) m)
    | inr (d, f) ↦ elim (reload_conf-cases d f) [
      | inl (e, h) ↦ subst (Later m) (sym h) (Later-same m)
      | inr (inl (u, h)) ↦ subst (Later m) (sym h) (reload_paths-Later (by_conf name m) d m)
      | inr (inr h) ↦ subst (Later m) (sym h) (close_paths-Later (by_conf name m) m)
    ]
  ]

reload_confs-Later :
    (confs cs : List (String × PathConf)) (m : Manager) → Later m (reload_confs confs cs m)
unfolding reload_confs
reload_confs-Later confs [] m = Later-same m
reload_confs-Later confs ((name, c) ∷ cs) m =
    let n = reload_conf confs name c m in
    Later-trans m n (reload_confs confs cs n) (reload_conf-Later confs name c m)
      (reload_confs-Later confs cs n)

add_plain_paths-sent :
    (cs : List (String × PathConf)) (m : Manager) (e : Effect)
    → Sent e m.sent
    → Sent e (add_plain_paths cs m).sent
unfolding add_plain_paths add_plain_path create_path
add_plain_paths-sent [] m e h = h
add_plain_paths-sent ((name, c) ∷ cs) m e h =
    add_plain_paths-sent cs (add_plain_path name c m) e
      (either (not (is_some (lookup name m.paths)) && not c.regexp))
  where
    either : (b : Bool) → Sent e (if b then create_path name name m else m).sent
    either true = inr h
    either false = h

-- A path with the number of an earlier one was there before the second loop.
add_plain_paths-old :
    (k : String) (r : PathRef) (cs : List (String × PathConf)) (m : Manager)
    → r.id < m.next_id
    → lookup k (add_plain_paths cs m).paths ≡ some r
    → lookup k m.paths ≡ some r
unfolding add_plain_paths add_plain_path create_path
add_plain_paths-old k r [] m h e = e
add_plain_paths-old k r ((name, c) ∷ cs) m h e =
    before (not (is_some (lookup name m.paths)) && not c.regexp) (
      add_plain_paths-old k r cs (add_plain_path name c m)
        (later (not (is_some (lookup name m.paths)) && not c.regexp)) e)
  where
    later : (b : Bool) → r.id < (if b then create_path name name m else m).next_id
    later true = omega (arith, h)
    later false = h

    before :
        (b : Bool)
        → lookup k (if b then create_path name name m else m).paths ≡ some r
        → lookup k m.paths ≡ some r
    before true f = ground (arith, f, h, paths-create_path name name m k)
    before false f = f

-- The configuration that a path has after a reload: the one it had, or one that it was given.
abbrev pub Follows : PathRef → PathConf → List (String × PathConf) → Manager → Type 0
Follows r c confs m =
    (d : PathConf) × (lookup r.conf_name confs ≡ some d)
    × ((d ≡ c) ⊎ ((path_conf_can_be_updated c d ≡ true) × Sent (path_reloaded r d) m.sent))

Follows-sent :
    (r : PathRef) (c : PathConf) (confs : List (String × PathConf)) (m o : Manager)
    → ((e : Effect) → Sent e m.sent → Sent e o.sent)
    → Follows r c confs m
    → Follows r c confs o
Follows-sent r c confs m o s (d, f, inl e) = (d, f, inl e)
Follows-sent r c confs m o s (d, f, inr (u, h)) = (d, f, inr (u, s (path_reloaded r d) h))

module _ (k : String) (r : PathRef) (confs : List (String × PathConf)) where
  -- A round for the configuration of a path that outlives it.
  reload_conf-Follows :
      (c : PathConf) (m : Manager)
      → Inv m
      → r.name ≡ k
      → lookup k (reload_conf confs r.conf_name c m).paths ≡ some r
      → Follows r c confs (reload_conf confs r.conf_name c m)
  reload_conf-Follows c m v n e = elim (Option-cases (lookup r.conf_name confs)) [
    | inl f ↦ absurd (conf_name-reload_conf k r confs r.conf_name c m v n e f refl)
    | inr (d, f) ↦ elim (reload_conf-cases confs r.conf_name c m d f) [
      | inl (same, h) ↦ (d, f, inl same)
      | inr (inl (u, h)) ↦ (
        d,
        f,
        inr (
          u,
          subst (λ (o : Manager). Sent (path_reloaded r d) o.sent) (sym h)
              (reload_paths-Sent r (by_conf r.conf_name m) d m
                (v.indexed k r (reload_conf-Keeps k r confs r.conf_name c m n e))),
        ),
      )
      | inr (inr h) ↦
          let (g, gone) =
            Has-close_paths k r (by_conf r.conf_name m) m n
              (subst (λ (o : Manager). lookup k o.paths ≡ some r) h e) in
          absurd (gone (v.indexed k r g))
    ]
  ]

  reload_confs-Follows :
      (cs : List (String × PathConf)) (c : PathConf) (m : Manager)
      → Inv m
      → r.name ≡ k
      → lookup r.conf_name cs ≡ some c
      → lookup k (reload_confs confs cs m).paths ≡ some r
      → Follows r c confs (reload_confs confs cs m)
  unfolding reload_confs lookup
  reload_confs-Follows [] c m v n l e = absurd (ground (arith, l))
  reload_confs-Follows ((name, b) ∷ cs) c m v n l e =
      let o = reload_conf confs name b m in
      let w = reload_conf-Inv confs name b m v in
      elim (Bool-cases (str_eq name r.conf_name)) [
        | inl same ↦
            let named = (eq_iff name r.conf_name).0 same in
            let eq : b ≡ c = ground (arith, same, l) in
            Follows-sent r c confs o (reload_confs confs cs o) (reload_confs-Later confs cs o).sent
              (subst (λ x. Follows r c confs (reload_conf confs x b m)) (sym named)
                (subst (λ x. Follows r x confs (reload_conf confs r.conf_name b m)) eq
                  (reload_conf-Follows b m v n (
                    subst (λ x. lookup k (reload_conf confs x b m).paths ≡ some r) named
                      (paths-reload_confs k r confs cs o w n e).0))))
        | inr other ↦ reload_confs-Follows cs c o w n (ground (arith, other, l)) e
      ]

-- A path that outlives a reload of the configurations belongs to one that is still there, and that is
-- the one it ran on, or one that it can be updated to and that was passed on to it; a path whose
-- configuration has gone, or has changed in any other way, does not outlive the reload.
pub conf_reload-Follows :
    (confs : List (String × PathConf)) (m : Manager) (n : String) (r : PathRef) (c : PathConf)
    → Inv m
    → lookup n m.paths ≡ some r
    → lookup r.conf_name m.path_confs ≡ some c
    → lookup n (conf_reload confs m).paths ≡ some r
    → Follows r c confs (conf_reload confs m)
unfolding conf_reload
conf_reload-Follows confs m n r c v e l f =
    let left : Manager = reload_confs confs m.path_confs m in
    let next : Manager = record left { path_confs = confs } in
    let (named, old) = v.named n r e in
    let same = (reload_confs-Later confs m.path_confs m).next_id in
    let there : lookup n left.paths ≡ some r =
      add_plain_paths-old n r confs next (subst (λ i. r.id < i) (sym same) old) f in
    Follows-sent r c confs left (add_plain_paths confs next) (add_plain_paths-sent confs next)
      (reload_confs-Follows n r confs m.path_confs c m v named l there)
