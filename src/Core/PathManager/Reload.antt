-- ===== src/Core/PathManager/Reload.antt =====
-- What a reload of the configuration in internal/core/path_manager.go does to paths.
use Prim.Native.String.{String}
use text.Mathlib.TextPositions.{eq_refl}
use rtc_simple_server.Base.{Bool, true, false, ◌||◌, List, [], ◌∷◌, ◌≡◌, ap, arith, is_some}
use rtc_simple_server.Base.Text.{lookup}
use rtc_simple_server.Conf.PathConf.{PathConf, equal_iff}
use rtc_simple_server.Conf.Values.{clone_credentials}
use rtc_simple_server.Core.Path.Invariant.Defs.{Updatable}
use rtc_simple_server.Core.PathManager.Defs.{
  Manager, add_plain_path, add_plain_paths, conf_reload, path_conf_can_be_updated, new_path_manager,
}
use rtc_simple_server.Core.PathManager.Sets.{paths-create_path}

-- A configuration that the manager passes on to a running path differs from the old one in settings of
-- the camera and in the order of IPs at most, as the path relies on, and has no regular expression.
pub can_be_updated-Updatable :
    (old new : PathConf)
    → path_conf_can_be_updated old new ≡ true
    → old.regexp ≡ new.regexp
    → Updatable old new × (new.regexp ≡ false)
unfolding path_conf_can_be_updated
can_be_updated-Updatable old new h r =
    let e : new ≡ record old {
      regexp = false;
      publish = clone_credentials old.publish;
      read = clone_credentials old.read;
      camera = new.camera;
    } =
      (equal_iff _ _).0 h in
    let f : new.regexp ≡ false = ap (λ c. c.regexp) e in
    (record { same = ground (arith, e, f, r) }, f)

-- Every configuration without a regular expression has its path.
abbrev pub HasPlainPaths : List (String × PathConf) → Manager → Type 0
HasPlainPaths [] m = Unit
HasPlainPaths ((name, c) ∷ cs) m =
    ((c.regexp || is_some (lookup name m.paths)) ≡ true) × HasPlainPaths cs m

add_plain_path_keeps :
    (name k : String) (c : PathConf) (b : Bool) (m : Manager)
    → (b || is_some (lookup k m.paths)) ≡ true
    → (b || is_some (lookup k (add_plain_path name c m).paths)) ≡ true
unfolding add_plain_path
add_plain_path_keeps name k c b m h = ground (arith, paths-create_path name name m k)

add_plain_paths_keeps :
    (cs : List (String × PathConf)) (k : String) (b : Bool) (m : Manager)
    → (b || is_some (lookup k m.paths)) ≡ true
    → (b || is_some (lookup k (add_plain_paths cs m).paths)) ≡ true
unfolding add_plain_paths
add_plain_paths_keeps [] k b m h = h
add_plain_paths_keeps ((name, c) ∷ cs) k b m h =
    add_plain_paths_keeps cs k b (add_plain_path name c m) (add_plain_path_keeps name k c b m h)

add_plain_path_adds :
    (name : String) (c : PathConf) (m : Manager)
    → (c.regexp || is_some (lookup name (add_plain_path name c m).paths)) ≡ true
unfolding add_plain_path
add_plain_path_adds name c m = ground (arith, paths-create_path name name m name, eq_refl name)

add_plain_paths-HasPlainPaths :
    (cs : List (String × PathConf)) (m : Manager) → HasPlainPaths cs (add_plain_paths cs m)
unfolding add_plain_paths
add_plain_paths-HasPlainPaths [] m = tt
add_plain_paths-HasPlainPaths ((name, c) ∷ cs) m = (
  add_plain_paths_keeps cs name c.regexp _ (add_plain_path_adds name c m),
  add_plain_paths-HasPlainPaths cs (add_plain_path name c m),
)

-- After a reload, there is a path under the name of each of the new configurations that has no regular
-- expression; it may be one that was created for another configuration, whose regular expression fits
-- the name.
pub conf_reload_paths :
    (confs : List (String × PathConf)) (m : Manager) → HasPlainPaths confs (conf_reload confs m)
unfolding conf_reload
conf_reload_paths confs m = add_plain_paths-HasPlainPaths confs _

-- A new path manager has a path for each configuration that has no regular expression.
pub new_path_manager_paths :
    (confs : List (String × PathConf)) → HasPlainPaths confs (new_path_manager confs)
unfolding new_path_manager
new_path_manager_paths confs = add_plain_paths-HasPlainPaths confs _
