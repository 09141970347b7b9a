-- ===== src/Core/PathManager/Lives.antt =====
-- The whole life of the path manager of internal/core/path_manager.go: no path outlives its
-- configuration.
use Prim.Native.String.{String}
use text.Mathlib.TextPositions.{eq_refl}
use rtc_simple_server.Base.{
  if◌then◌else◌, is_some, ◌≡◌, refl, ◌⊎◌, inl, inr, Bool, true, false, Option, some, List, [], ◌∷◌,
  arith,
}
use rtc_simple_server.Base.Text.{lookup}
use rtc_simple_server.Conf.PathConf.{PathConf, Credentials}
use rtc_simple_server.Core.PathManager.Defs.{
  by_conf, Effect, PathRef, ManagerError, Manager, Event, confs_reloaded, closed, source_ready,
  source_not_ready, describe, reader_add, publisher_add, hls_server_set, api_paths_list, Request,
  emit, create_path, remove_path, reload_confs, conf_reload, path_close, new_path_manager, accepts,
  find_regexp_conf, find_path_conf, handle_request, step,
}
use rtc_simple_server.Core.PathManager.Sets.{Has, paths-create_path, paths-remove_path}
use rtc_simple_server.Core.PathManager.Invariant.{Inv}
use rtc_simple_server.Core.PathManager.Events.{
  conf_reload-Inv, Allowed, new_path_manager-Inv, manager_step-Inv,
}
use rtc_simple_server.Core.PathManager.Orphans.{
  paths-reload_confs, paths-add_plain_paths, path_confs-add_plain_paths,
}

-- Every path belongs to a configuration that is in force.
unfoldable pub Configured : Manager → Type 0
Configured m =
    (n : String) (r : PathRef)
    → lookup n m.paths ≡ some r
    → is_some (lookup r.conf_name m.path_confs) ≡ true

conf_reload-Configured :
    (confs : List (String × PathConf)) (m : Manager)
    → Inv m
    → Configured m
    → Configured (conf_reload confs m)
unfolding Configured conf_reload
conf_reload-Configured confs m v c n r e =
    let left : Manager = reload_confs confs m.path_confs m in
    let next : Manager = record left { path_confs = confs } in
    rw (path_confs-add_plain_paths confs next) (elim (paths-add_plain_paths n r confs next e) [
      | inl f ↦
          let named : r.name ≡ n = ((conf_reload-Inv confs m v).named n r e).0 in
          let (g, h) = paths-reload_confs n r confs m.path_confs m v named f in h (c n r g)
      | inr h ↦ h
    ])

path_close-Configured : (q : PathRef) (m : Manager) → Configured m → Configured (path_close q m)
unfolding Configured path_close remove_path
path_close-Configured q m c n r e = ground (arith, e, c n r, paths-remove_path q m n)

new_path_manager-Configured :
    (confs : List (String × PathConf)) → Configured (new_path_manager confs)
unfolding Configured new_path_manager lookup
new_path_manager-Configured confs n r e =
    let empty : Manager = record {
      path_confs = confs;
      paths = [];
      paths_by_conf = [];
      hls_server = false;
      next_id = 0;
      sent = [];
    } in
    rw (path_confs-add_plain_paths confs empty) (elim (paths-add_plain_paths n r confs empty e) [
      | inl f ↦ absurd (ground (arith, f))
      | inr h ↦ h
    ])

emit-Configured : (e : Effect) (m : Manager) → Configured m → Configured (emit e m)
unfolding Configured
emit-Configured e m c = c

Configured-if :
    (b : Bool) (m n : Manager) → Configured m → Configured n → Configured (if b then m else n)
Configured-if true m n c d = c
Configured-if false m n c d = d

module _ (submatch : String → String → Option (List String)) where
  find_regexp_conf-is_some :
      (name conf_name : String) (c : PathConf) (confs : List (String × PathConf))
      → find_regexp_conf submatch name confs ≡ some (conf_name, c)
      → is_some (lookup conf_name confs) ≡ true
  unfolding find_regexp_conf lookup
  find_regexp_conf-is_some name conf_name c [] e = absurd (ground (arith, e))
  find_regexp_conf-is_some name conf_name c ((k, d) ∷ confs) e =
      ground (arith, e, eq_refl conf_name, find_regexp_conf-is_some name conf_name c confs)

  -- The name that a request is matched with is that of a configuration in force.
  find_path_conf-is_some :
      (name conf_name : String) (c : PathConf) (confs : List (String × PathConf))
      → find_path_conf submatch name confs ≡ inr (conf_name, c)
      → is_some (lookup conf_name confs) ≡ true
  unfolding find_path_conf
  find_path_conf-is_some name conf_name c confs e =
      ground (arith, e, find_regexp_conf-is_some name conf_name c confs)

  create_path-Configured :
      (conf_name name : String) (m : Manager)
      → is_some (lookup conf_name m.path_confs) ≡ true
      → Configured m
      → Configured (create_path conf_name name m)
  unfolding Configured create_path
  create_path-Configured conf_name name m h c n r e =
      ground (arith, e, h, c n r, paths-create_path conf_name name m n)

  handle_request-Configured :
      (credentials : PathConf → Credentials) (req : Request) (m : Manager)
      → Configured m
      → Configured (handle_request submatch credentials req m)
  unfolding handle_request
  handle_request-Configured credentials req m c =
      matched (find_path_conf submatch req.path_name m.path_confs) refl
    where
      matched :
          (found : ManagerError ⊎ (String × PathConf))
          → find_path_conf submatch req.path_name m.path_confs ≡ found
          → Configured (handle_request submatch credentials req m)
      matched (inl e) f = rw (f, handle_request) (emit-Configured _ m c)
      matched (inr (conf_name, conf)) f =
          let known = find_path_conf-is_some req.path_name conf_name conf m.path_confs f in
          rw (f, handle_request)
            (Configured-if (accepts req.authenticate (credentials conf)) _ _
              (emit-Configured _ _ (
                Configured-if (is_some (lookup req.path_name m.paths)) m _ c
                  (create_path-Configured conf_name req.path_name m known c)))
              (emit-Configured _ m c))

  step-Configured :
      (e : Event) (m : Manager) → Inv m → Configured m → Configured (step submatch e m)
  unfolding step
  step-Configured (confs_reloaded confs) m v c = conf_reload-Configured confs m v c
  step-Configured (closed r) m v c = path_close-Configured r m c
  step-Configured (source_ready r) m v c = Configured-if m.hls_server _ _ (emit-Configured _ m c) c
  step-Configured (source_not_ready r) m v c =
      Configured-if m.hls_server _ _ (emit-Configured _ m c) c
  step-Configured (describe req) m v c = handle_request-Configured _ req m c
  step-Configured (reader_add req) m v c = handle_request-Configured _ req m c
  step-Configured (publisher_add req) m v c = handle_request-Configured _ req m c
  step-Configured (hls_server_set s) m v c = unfold Configured in c
  step-Configured (api_paths_list res) m v c = emit-Configured _ m c

  -- The states that a path manager gets into, from the configurations that it starts with.
  pub data Managed (confs : List (String × PathConf)) : Manager → Type 0 where
    begin : Managed confs (new_path_manager confs)
    next :
        {m : Manager} (e : Event)
        → Managed confs m
        → Allowed submatch e m
        → Managed confs (step submatch e m)

  managed :
      (confs : List (String × PathConf)) {m : Manager} → Managed confs m → Inv m × Configured m
  managed confs begin = (new_path_manager-Inv confs, new_path_manager-Configured confs)
  managed confs (next {m = m} e r a) =
      let (v, c) = managed confs r in (manager_step-Inv submatch e m v a, step-Configured e m v c)

  -- Over the life of the path manager, reloads of the configuration included, the path under a name
  -- bears that name, stands in the set of its configuration, and that configuration is in force.
  pub Managed-path :
      (confs : List (String × PathConf)) (m : Manager) (n : String) (r : PathRef)
      → Managed confs m
      → lookup n m.paths ≡ some r
      → (r.name ≡ n)
        × Has r (by_conf r.conf_name m)
        × (is_some (lookup r.conf_name m.path_confs) ≡ true)
  unfolding Configured
  Managed-path confs m n r l e =
      let (v, c) = managed confs l in ((v.named n r e).0, v.indexed n r e, c n r e)
