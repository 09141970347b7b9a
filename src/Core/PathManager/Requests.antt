-- ===== src/Core/PathManager/Requests.antt =====
-- What the requests to the path manager of internal/core/path_manager.go get.
use Prim.Native.String.{String}
use text.Mathlib.TextPositions.{eq_refl}
use rtc_simple_server.Base.{
  true, false, Option, none, some, List, ◌∷◌, ◌≡◌, ◌⊎◌, inl, inr, refl, Option-cases,
}
use rtc_simple_server.Base.Text.{lookup}
use rtc_simple_server.Conf.PathConf.{PathConf, Credentials}
use rtc_simple_server.Core.PathManager.Defs.{
  PathRef, ManagerError, unauthorized, found, failed, reply, Effect, Manager, emit, create_path,
  Request, accepts, find_path_conf, handle_request,
}
use rtc_simple_server.Core.PathManager.Sets.{fresh_ref, paths-create_path}
use rtc_simple_server.Core.PathManager.Invariant.{Inv}

module _ (submatch : String → String → Option (List String)) where
  -- A request that is let in gets the path of the name that it asks for, which is then one of the manager,
  -- and which is a new one only if there was none.
  pub request_served :
      (credentials : PathConf → Credentials) (req : Request) (m : Manager) (c : String)
      (conf : PathConf)
      → Inv m
      → find_path_conf submatch req.path_name m.path_confs ≡ inr (c, conf)
      → accepts req.authenticate (credentials conf) ≡ true
      → (r : PathRef) × (s : List Effect) × (lookup req.path_name
            (handle_request submatch credentials req m).paths
          ≡ some r)
        × (r.name ≡ req.path_name)
        × ((handle_request submatch credentials req m).sent ≡ reply req.res (found (some r)) ∷ s)
        × ((lookup req.path_name m.paths ≡ some r)
            ⊎ (lookup req.path_name m.paths ≡ none) × (r.id ≡ m.next_id) × (r.conf_name ≡ c))
  unfolding handle_request
  request_served credentials req m c conf v f a =
      elim (Option-cases (lookup req.path_name m.paths)) [
        | inl e ↦ (
          fresh_ref c req.path_name m,
          (create_path c req.path_name m).sent,
          rw (f, handle_request, a, e) new_path,
          refl,
          rw (f, handle_request, a, e, new_path),
          inr (e, refl, refl),
        )
        | inr (r, e) ↦ (
          r,
          m.sent,
          rw (f, handle_request, a, e) e,
          (v.named req.path_name r e).0,
          rw (f, handle_request, a, e, e),
          inl e,
        )
      ]
    where
      new_path :
          lookup req.path_name (create_path c req.path_name m).paths
          ≡ some (fresh_ref c req.path_name m)
      new_path = rw (paths-create_path c req.path_name m req.path_name, eq_refl req.path_name)

  -- A request for a path that no configuration fits changes nothing but for the answer: no path is
  -- created for it.
  pub request_unknown :
      (credentials : PathConf → Credentials) (req : Request) (m : Manager) (e : ManagerError)
      → find_path_conf submatch req.path_name m.path_confs ≡ inl e
      → handle_request submatch credentials req m ≡ emit (reply req.res (failed e)) m
  unfolding handle_request
  request_unknown credentials req m e f = rw (f, handle_request) refl

  -- A request whose credentials are refused changes nothing but for the answer.
  pub request_unauthorized :
      (credentials : PathConf → Credentials) (req : Request) (m : Manager) (c : String)
      (conf : PathConf)
      → find_path_conf submatch req.path_name m.path_confs ≡ inr (c, conf)
      → accepts req.authenticate (credentials conf) ≡ false
      → handle_request submatch credentials req m ≡ emit (reply req.res (failed unauthorized)) m
  unfolding handle_request
  request_unauthorized credentials req m c conf f a = rw (f, handle_request, a) refl
