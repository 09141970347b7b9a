-- ===== src/Core/PathManager/Defs.antt =====
-- internal/core/path_manager.go: the state of the path manager and its event loop.
use Prim.Native.String.{String}
use rtc_simple_server.Base.{
  ◌⊎◌, inl, inr, ℕ, ◌+◌, Bool, true, false, not, ◌&&◌, Option, none, some, List, [], ◌∷◌, is_some,
  is_empty, if◌then◌else◌, ◌==◌,
}
use rtc_simple_server.Base.Text.{lookup, insert, delete}
use rtc_simple_server.Conf.PathConf.{PathConf, Credentials, equal}
use rtc_simple_server.Conf.Values.{clone_credentials}
use rtc_simple_server.Conf.PathName.{NameError, is_valid_path_name}

-- A `*path`: `id` tells two paths of the same name apart.
pub record PathRef : Type 0 where
  pub id : ℕ
  pub name : String
  pub conf_name : String

pub data ManagerError : Type 0 where
  invalid_name : NameError → ManagerError
  not_configured unauthorized : ManagerError

pub data Reply : Type 0 where
  found : Option PathRef → Reply
  failed : ManagerError → Reply

-- What the manager does to paths, to the HLS server and to the channels of requests.
pub data Effect : Type 0 where
  path_created path_closed : PathRef → Effect
  path_reloaded : PathRef → PathConf → Effect
  hls_source_ready hls_source_not_ready : PathRef → Effect
  reply : ℕ → Reply → Effect
  list_reply : ℕ → List (String × PathRef) → Effect

pub record Manager : Type 0 where
  pub path_confs : List (String × PathConf)
  pub paths : List (String × PathRef)
  pub paths_by_conf : List (String × List PathRef)
  pub hls_server : Bool
  pub next_id : ℕ
  pub sent : List Effect

abbrev pub emit : Effect → Manager → Manager
emit e m = record m { sent = e ∷ m.sent }

-- `copy` is the clone of the old configuration, through JSON, which leaves out the regular
-- expression and sorts the IPs, with the settings of the camera taken over.
unfoldable pub path_conf_can_be_updated : PathConf → PathConf → Bool
unfolding clone_credentials
path_conf_can_be_updated old new = equal new (record old {
  regexp = false;
  publish = clone_credentials old.publish;
  read = clone_credentials old.read;
  camera = new.camera;
})

-- Sets of paths: the keys of a `map[*path]struct{}`.
unfoldable pub add_ref : PathRef → List PathRef → List PathRef
add_ref r [] = r ∷ []
add_ref r (s ∷ ss) = if s.id == r.id then r ∷ ss else s ∷ add_ref r ss

unfoldable pub remove_ref : PathRef → List PathRef → List PathRef
remove_ref r [] = []
remove_ref r (s ∷ ss) = let rest = remove_ref r ss in if s.id == r.id then rest else s ∷ rest

abbrev pub refs_of : Option (List PathRef) → List PathRef
refs_of none = []
refs_of (some rs) = rs

-- `pm.pathsByConf[confName]`
abbrev pub by_conf : String → Manager → List PathRef
by_conf c m = refs_of (lookup c m.paths_by_conf)

-- `newPath`, and the two maps.
unfoldable pub create_path : String → String → Manager → Manager
unfolding add_ref
create_path conf_name name m =
    let r : PathRef = record { id = m.next_id; name = name; conf_name = conf_name } in
    record (emit (path_created r) m) {
      paths = insert name r m.paths;
      paths_by_conf = insert conf_name (add_ref r (by_conf conf_name m)) m.paths_by_conf;
      next_id = m.next_id + 1;
    }

unfoldable pub remove_path : PathRef → Manager → Manager
unfolding remove_ref
remove_path r m =
    let rest = remove_ref r (by_conf r.conf_name m) in
    record m {
      paths_by_conf =
          if is_empty rest
          then delete r.conf_name m.paths_by_conf
          else insert r.conf_name rest m.paths_by_conf;
      paths = delete r.name m.paths;
    }

-- `pm.removePath(pa); pa.close(); pa.wait()`, for each path of a configuration.
unfoldable pub close_paths : List PathRef → Manager → Manager
unfolding remove_path
close_paths [] m = m
close_paths (r ∷ rs) m = close_paths rs (emit (path_closed r) (remove_path r m))

unfoldable pub reload_paths : List PathRef → PathConf → Manager → Manager
reload_paths [] c m = m
reload_paths (r ∷ rs) c m = reload_paths rs c (emit (path_reloaded r c) m)

-- One round of the first loop of a reload, on a configuration that was in force.
unfoldable pub reload_conf : List (String × PathConf) → String → PathConf → Manager → Manager
unfolding path_conf_can_be_updated close_paths reload_paths
reload_conf new_confs name c m = elim (lookup name new_confs) [
  | none ↦ close_paths (by_conf name m) m
  | some d ↦
      if equal d c
      then m
      else if path_conf_can_be_updated c d
      then reload_paths (by_conf name m) d m
      else close_paths (by_conf name m) m
]

unfoldable pub reload_confs :
    List (String × PathConf) → List (String × PathConf) → Manager → Manager
unfolding reload_conf
reload_confs new_confs [] m = m
reload_confs new_confs ((name, c) ∷ cs) m =
    reload_confs new_confs cs (reload_conf new_confs name c m)

-- One round of the second loop, and of the loop of `newPathManager`.
unfoldable pub add_plain_path : String → PathConf → Manager → Manager
unfolding create_path
add_plain_path name c m =
    if not (is_some (lookup name m.paths)) && not c.regexp then create_path name name m else m

unfoldable pub add_plain_paths : List (String × PathConf) → Manager → Manager
unfolding add_plain_path
add_plain_paths [] m = m
add_plain_paths ((name, c) ∷ cs) m = add_plain_paths cs (add_plain_path name c m)

unfoldable pub conf_reload : List (String × PathConf) → Manager → Manager
unfolding reload_confs add_plain_paths
conf_reload new_confs m =
    let n = reload_confs new_confs m.path_confs m in
    add_plain_paths new_confs (record n { path_confs = new_confs })

unfoldable pub path_close : PathRef → Manager → Manager
unfolding remove_path
path_close r m = elim (lookup r.name m.paths) [
  | none ↦ m
  | some s ↦ if s.id == r.id then remove_path r m else m
]

unfoldable pub new_path_manager : List (String × PathConf) → Manager
unfolding add_plain_paths
new_path_manager confs = add_plain_paths confs (record {
  path_confs = confs;
  paths = [];
  paths_by_conf = [];
  hls_server = false;
  next_id = 0;
  sent = [];
})

-- A request: `authenticate` says whether the credentials of a path let the client in; only that of a
-- reader can be nil.
pub record Request : Type 0 where
  pub res : ℕ
  pub path_name : String
  pub authenticate : Option (Credentials → Bool)

pub data Event : Type 0 where
  confs_reloaded : List (String × PathConf) → Event
  closed source_ready source_not_ready : PathRef → Event
  describe reader_add publisher_add : Request → Event
  hls_server_set : Bool → Event
  api_paths_list : ℕ → Event

abbrev pub accepts : Option (Credentials → Bool) → Credentials → Bool
accepts none c = true
accepts (some f) c = f c

-- `submatch` stands for `FindStringSubmatch` of the regular expression of a configuration, which is
-- the name of the configuration after its first character.
module _ (submatch : String → String → Option (List String)) where
  -- The loop over the configurations with a regular expression.
  unfoldable pub find_regexp_conf : String → List (String × PathConf) → Option (String × PathConf)
  find_regexp_conf name [] = none
  find_regexp_conf name ((conf_name, c) ∷ cs) =
      let rest = find_regexp_conf name cs in
      if c.regexp && is_some (submatch conf_name name) then some (conf_name, c) else rest

  unfoldable pub find_path_conf :
      String → List (String × PathConf) → ManagerError ⊎ (String × PathConf)
  unfolding find_regexp_conf
  find_path_conf name confs = elim (is_valid_path_name name) [
    | some e ↦ inl (invalid_name e)
    | none ↦ elim (lookup name confs) [
      | some c ↦ inr (name, c)
      | none ↦ elim (find_regexp_conf name confs) [
        | some conf ↦ inr conf
        | none ↦ inl not_configured
      ]
    ]
  ]

  -- The common part of the three requests.
  unfoldable pub handle_request : (PathConf → Credentials) → Request → Manager → Manager
  unfolding find_path_conf
  handle_request credentials req m = elim (find_path_conf req.path_name m.path_confs) [
    | inl e ↦ emit (reply req.res (failed e)) m
    | inr (conf_name, c) ↦
        if accepts req.authenticate (credentials c)
        then (let n =
              if is_some (lookup req.path_name m.paths)
              then m
              else create_path conf_name req.path_name m in
            emit (reply req.res (found (lookup req.path_name n.paths))) n)
        else emit (reply req.res (failed unauthorized)) m
  ]

  unfoldable pub step : Event → Manager → Manager
  unfolding conf_reload path_close handle_request
  step (confs_reloaded confs) m = conf_reload confs m
  step (closed r) m = path_close r m
  step (source_ready r) m = if m.hls_server then emit (hls_source_ready r) m else m
  step (source_not_ready r) m = if m.hls_server then emit (hls_source_not_ready r) m else m
  step (describe req) m = handle_request (λ c. c.read) req m
  step (reader_add req) m = handle_request (λ c. c.read) req m
  step (publisher_add req) m = handle_request (λ c. c.publish) req m
  step (hls_server_set s) m = record m { hls_server = s }
  step (api_paths_list res) m = emit (list_reply res m.paths) m
