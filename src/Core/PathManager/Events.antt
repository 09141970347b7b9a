-- ===== src/Core/PathManager/Events.antt =====
-- The events of internal/core/path_manager.go keep the two maps in agreement.
use Prim.Native.String.{String}
use rtc_simple_server.Base.{
  Bool, true, false, not, ◌&&◌, Option, some, List, [], ◌∷◌, ◌≡◌, ◌⊎◌, inl, inr, refl, subst, arith,
  is_some, if◌then◌else◌, ◌==◌, Bool-cases, Option-cases,
}
use rtc_simple_server.Base.Text.{lookup}
use rtc_simple_server.Conf.PathConf.{PathConf, Credentials, equal}
use rtc_simple_server.Core.PathManager.Defs.{
  PathRef, ManagerError, path_closed, path_reloaded, Effect, Manager, emit, by_conf, create_path,
  remove_path, close_paths, reload_paths, reload_conf, reload_confs, add_plain_path,
  add_plain_paths, conf_reload, path_close, new_path_manager, path_conf_can_be_updated, Request,
  Event, confs_reloaded, closed, source_ready, source_not_ready, describe, reader_add,
  publisher_add, hls_server_set, api_paths_list, accepts, find_path_conf, handle_request, step,
}
use rtc_simple_server.Core.PathManager.Sets.{Has, paths-remove_path}
use rtc_simple_server.Core.PathManager.Invariant.{Inv, Alone, create_path-Inv, remove_path-Inv}

emit-Inv : (e : Effect) (m : Manager) → Inv m → Inv (emit e m)
emit-Inv e m v = record {
  named = v.named;
  indexed = v.indexed;
  listed = v.listed;
  distinct = v.distinct;
}

Alone-of_lookup : (r : PathRef) (m : Manager) → Inv m → lookup r.name m.paths ≡ some r → Alone r m
Alone-of_lookup r m v l n s e (inl p) = ground (arith, l, e, p)
Alone-of_lookup r m v l n s e (inr i) = ground (arith, l, v.distinct n r.name s r e l i, e)

Has-Alone : (c : String) (r : PathRef) (m : Manager) → Inv m → Has r (by_conf c m) → Alone r m
Has-Alone c r m v h = Alone-of_lookup r m v (v.listed c r h).1

Inv-if : (b : Bool) (m n : Manager) → Inv m → Inv n → Inv (if b then m else n)
Inv-if true m n v w = v
Inv-if false m n v w = w

-- The close of one path leaves the others alone.
Alone-remove_path : (r q : PathRef) (m : Manager) → Alone r m → Alone r (remove_path q m)
Alone-remove_path r q m a n s e h = a n s (ground (arith, paths-remove_path q m n, e)) h

abbrev AllAlone : List PathRef → Manager → Type 0
AllAlone [] m = Unit
AllAlone (r ∷ rs) m = Alone r m × AllAlone rs m

AllAlone-remove_path :
    (rs : List PathRef) (q : PathRef) (m : Manager) → AllAlone rs m → AllAlone rs (remove_path q m)
AllAlone-remove_path [] q m a = tt
AllAlone-remove_path (r ∷ rs) q m a = (Alone-remove_path r q m a.0, AllAlone-remove_path rs q m a.1)

AllAlone-emit :
    (rs : List PathRef) (e : Effect) (m : Manager) → AllAlone rs m → AllAlone rs (emit e m)
AllAlone-emit [] e m a = tt
AllAlone-emit (r ∷ rs) e m a = (a.0, AllAlone-emit rs e m a.1)

AllAlone-of_Has :
    (c : String) (rs : List PathRef) (m : Manager)
    → Inv m
    → ((r : PathRef) → Has r rs → Has r (by_conf c m))
    → AllAlone rs m
AllAlone-of_Has c [] m v h = tt
AllAlone-of_Has c (r ∷ rs) m v h =
    (Has-Alone c r m v (h r (inl refl)), AllAlone-of_Has c rs m v (λ s k. h s (inr k)))

close_paths-Inv : (rs : List PathRef) (m : Manager) → Inv m → AllAlone rs m → Inv (close_paths rs m)
unfolding close_paths
close_paths-Inv [] m v a = v
close_paths-Inv (r ∷ rs) m v a =
    let n = remove_path r m in
    close_paths-Inv rs (emit (path_closed r) n) (emit-Inv _ n (remove_path-Inv r m v a.0))
      (AllAlone-emit rs _ n (AllAlone-remove_path rs r m a.1))

reload_paths-Inv :
    (rs : List PathRef) (c : PathConf) (m : Manager) → Inv m → Inv (reload_paths rs c m)
unfolding reload_paths
reload_paths-Inv [] c m v = v
reload_paths-Inv (r ∷ rs) c m v =
    reload_paths-Inv rs c (emit (path_reloaded r c) m) (emit-Inv _ m v)

-- The paths of one configuration are closed.
close_conf-Inv : (c : String) (m : Manager) → Inv m → Inv (close_paths (by_conf c m) m)
close_conf-Inv c m v =
    close_paths-Inv (by_conf c m) m v (AllAlone-of_Has c (by_conf c m) m v (λ r h. h))

pub reload_conf-Inv :
    (confs : List (String × PathConf)) (name : String) (c : PathConf) (m : Manager)
    → Inv m
    → Inv (reload_conf confs name c m)
unfolding reload_conf
reload_conf-Inv confs name c m v = elim (Option-cases (lookup name confs)) [
  | inl e ↦ rw (e, reload_conf) (close_conf-Inv name m v)
  | inr (d, e) ↦
      rw (e, reload_conf)
        (Inv-if (equal d c) m _ v (
          Inv-if (path_conf_can_be_updated c d) _ _ (reload_paths-Inv (by_conf name m) d m v)
            (close_conf-Inv name m v)))
]

reload_confs-Inv :
    (confs cs : List (String × PathConf)) (m : Manager) → Inv m → Inv (reload_confs confs cs m)
unfolding reload_confs
reload_confs-Inv confs [] m v = v
reload_confs-Inv confs ((name, c) ∷ cs) m v =
    reload_confs-Inv confs cs (reload_conf confs name c m) (reload_conf-Inv confs name c m v)

add_plain_path-Inv :
    (name : String) (c : PathConf) (m : Manager) → Inv m → Inv (add_plain_path name c m)
unfolding add_plain_path
add_plain_path-Inv name c m v =
    elim (Bool-cases (not (is_some (lookup name m.paths)) && not c.regexp)) [
      | inl h ↦ rw h (create_path-Inv name name m v (ground (arith, h)))
      | inr h ↦ rw h v
    ]

add_plain_paths-Inv :
    (cs : List (String × PathConf)) (m : Manager) → Inv m → Inv (add_plain_paths cs m)
unfolding add_plain_paths
add_plain_paths-Inv [] m v = v
add_plain_paths-Inv ((name, c) ∷ cs) m v =
    add_plain_paths-Inv cs (add_plain_path name c m) (add_plain_path-Inv name c m v)

pub conf_reload-Inv :
    (confs : List (String × PathConf)) (m : Manager) → Inv m → Inv (conf_reload confs m)
unfolding conf_reload
conf_reload-Inv confs m v =
    let w : Inv (reload_confs confs m.path_confs m) = reload_confs-Inv confs m.path_confs m v in
    add_plain_paths-Inv confs _
      (record { named = w.named; indexed = w.indexed; listed = w.listed; distinct = w.distinct })

-- The two maps of a new path manager agree.
pub new_path_manager-Inv : (confs : List (String × PathConf)) → Inv (new_path_manager confs)
unfolding new_path_manager lookup
new_path_manager-Inv confs = add_plain_paths-Inv confs _ (record {
  named = λ n r e. cc;
  indexed = λ n r e. cc;
  listed = λ c r h. absurd h;
  distinct = λ n k r s e f i. cc;
})

-- Pointers: a path that is equal to one of the manager is that one.
abbrev pub IsPointer : PathRef → Manager → Type 0
IsPointer r m = (s : PathRef) → lookup r.name m.paths ≡ some s → s.id ≡ r.id → s ≡ r

path_close-Inv : (r : PathRef) (m : Manager) → Inv m → IsPointer r m → Inv (path_close r m)
unfolding path_close
path_close-Inv r m v p = elim (Option-cases (lookup r.name m.paths)) [
  | inl e ↦ rw (e, path_close) v
  | inr (s, e) ↦ elim (Bool-cases (s.id == r.id)) [
    | inl h ↦
        let same : s ≡ r = p s e (ground (arith, h)) in
        rw (e, path_close, h)
          (remove_path-Inv r m v
            (Alone-of_lookup r m v (subst (λ x. lookup r.name m.paths ≡ some x) same e)))
    | inr h ↦ rw (e, path_close, h) v
  ]
]

module _ (submatch : String → String → Option (List String)) where
  -- The path that a request gets, after it was created if there was none.
  ensure : String → String → Manager → Manager
  ensure c n m = if is_some (lookup n m.paths) then m else create_path c n m

  ensure-Inv : (c n : String) (m : Manager) → Inv m → Inv (ensure c n m)
  unfolding ensure
  ensure-Inv c n m v = elim (Bool-cases (is_some (lookup n m.paths))) [
    | inl h ↦ rw h v
    | inr h ↦ rw h (create_path-Inv c n m v (ground (arith, h)))
  ]

  handle_request-Inv :
      (credentials : PathConf → Credentials) (req : Request) (m : Manager)
      → Inv m
      → Inv (handle_request submatch credentials req m)
  unfolding handle_request ensure
  handle_request-Inv credentials req m v =
      go (find_path_conf submatch req.path_name m.path_confs) refl
    where
      go :
          (r : ManagerError ⊎ (String × PathConf))
          → find_path_conf submatch req.path_name m.path_confs ≡ r
          → Inv (handle_request submatch credentials req m)
      go (inl e) f = rw (f, handle_request) (emit-Inv _ m v)
      go (inr (c, conf)) f =
          rw (f, handle_request)
            (Inv-if (accepts req.authenticate (credentials conf)) _ _
              (emit-Inv _ (ensure c req.path_name m) (ensure-Inv c req.path_name m v))
              (emit-Inv _ m v))

  -- Only the report that a path has ended has a condition.
  abbrev pub Allowed : Event → Manager → Type 0
  Allowed (closed r) m = IsPointer r m
  Allowed _ m = Unit {0}

  -- Every event keeps the two maps in agreement, with one path for a name, if a path that reports its
  -- end and bears the number of a path of the manager is that path.
  pub manager_step-Inv : (e : Event) (m : Manager) → Inv m → Allowed e m → Inv (step submatch e m)
  unfolding step
  manager_step-Inv (confs_reloaded confs) m v a = conf_reload-Inv confs m v
  manager_step-Inv (closed r) m v a = path_close-Inv r m v a
  manager_step-Inv (source_ready r) m v a = Inv-if m.hls_server _ _ (emit-Inv _ m v) v
  manager_step-Inv (source_not_ready r) m v a = Inv-if m.hls_server _ _ (emit-Inv _ m v) v
  manager_step-Inv (describe req) m v a = handle_request-Inv _ req m v
  manager_step-Inv (reader_add req) m v a = handle_request-Inv _ req m v
  manager_step-Inv (publisher_add req) m v a = handle_request-Inv _ req m v
  manager_step-Inv (hls_server_set s) m v a = record {
    named = v.named;
    indexed = v.indexed;
    listed = v.listed;
    distinct = v.distinct;
  }
  manager_step-Inv (api_paths_list res) m v a = emit-Inv _ m v
