-- ===== src/Core/PathManager/Tests.antt =====
-- The path manager at work: one camera, and any path that a regular expression fits.
use Prim.Native.String.{String}
use rtc_simple_server.Base.{
  Bool-cases, ap, inl, inr, arith, ◌≡◌, refl, ◌⊎◌, Bool, true, false, Option, none, some, List, [],
  ◌∷◌,
}
use rtc_simple_server.Base.Text.{lookup, insert, delete}
use rtc_simple_server.Conf.PathConf.{PathConf, equal, equal_iff}
use rtc_simple_server.Conf.PathName.{
  is_name_char, all_name_chars, last_char, check_codes, is_valid_path_name,
}
use rtc_simple_server.Conf.Values.{clone_credentials, sort}
use rtc_simple_server.Conf.Samples.{path_conf}
use rtc_simple_server.Core.PathManager.Defs.{
  reader_add, PathRef, Effect, Manager, path_conf_can_be_updated, add_ref, remove_ref, create_path,
  remove_path, close_paths, reload_paths, reload_conf, reload_confs, add_plain_path,
  add_plain_paths, conf_reload, path_close, new_path_manager, Request, find_regexp_conf,
  find_path_conf, handle_request, step, found, reply,
}
use rtc_simple_server.Core.PathManager.Survive.{Follows, conf_reload-Follows}
use rtc_simple_server.Core.PathManager.Invariant.{Inv}
use rtc_simple_server.Core.PathManager.Events.{new_path_manager-Inv, manager_step-Inv}
use rtc_simple_server.Core.PathManager.Requests.{request_served}
use rtc_simple_server.Core.PathManager.Reload.{HasPlainPaths, conf_reload_paths}

abbrev camera : PathConf
camera = path_conf "rtsp://camera" true ""

abbrev turned : PathConf
turned = record camera { camera = 1 }

abbrev live : PathConf
live = record (path_conf "publisher" false "") { regexp = true }

abbrev confs : List (String × PathConf)
confs = ("cam", camera) ∷ ("~^live", live) ∷ []

-- Every name fits the expression, or none does.
abbrev fits : String → String → Option (List String)
fits c n = some (n ∷ [])

abbrev manager : Manager
manager = new_path_manager confs

abbrev request : String → Bool → Request
request name lets_in = record { res = 5; path_name = name; authenticate = some (λ c. lets_in) }

abbrev served : Manager
served = handle_request fits (λ c. c.read) (request "live" true) manager

request_served_example :
    (r : PathRef) × (s : List Effect) × (lookup "live" served.paths ≡ some r)
    × (r.name ≡ "live")
    × (served.sent ≡ reply 5 (found (some r)) ∷ s)
    × ((lookup "live" manager.paths ≡ some r)
        ⊎ (lookup "live" manager.paths ≡ none)
          × (r.id ≡ manager.next_id)
          × (r.conf_name ≡ "~^live"))
unfolding path_conf_can_be_updated add_ref remove_ref create_path remove_path close_paths
    reload_paths reload_conf reload_confs add_plain_path add_plain_paths conf_reload path_close
    new_path_manager find_regexp_conf find_path_conf handle_request step is_name_char all_name_chars
    last_char check_codes is_valid_path_name lookup insert delete equal
request_served_example =
    request_served fits (λ c. c.read) (request "live" true) manager "~^live" live
      (new_path_manager-Inv confs) refl refl

manager_step-Inv_example : Inv (step fits (reader_add (request "live" true)) manager)
manager_step-Inv_example =
    manager_step-Inv fits (reader_add (request "live" true)) manager (new_path_manager-Inv confs) tt

conf_reload_paths_example : HasPlainPaths confs (conf_reload confs served)
conf_reload_paths_example = conf_reload_paths confs served

-- A reload that turns the camera, whose path lives on.
abbrev turned_confs : List (String × PathConf)
turned_confs = ("cam", turned) ∷ []

abbrev cam_ref : PathRef
cam_ref = record { id = 0; name = "cam"; conf_name = "cam" }

turned_differs : equal turned camera ≡ false
turned_differs = elim (Bool-cases (equal turned camera)) [
  | inl e ↦ absurd (ground (arith, ap (λ c. c.camera) ((equal_iff turned camera).0 e)))
  | inr e ↦ e
]

turned_same : equal turned turned ≡ true
turned_same = (equal_iff turned turned).1 refl

cam_stays : lookup "cam" (conf_reload turned_confs manager).paths ≡ some cam_ref
unfolding path_conf_can_be_updated add_ref remove_ref create_path remove_path close_paths
    reload_paths reload_conf reload_confs add_plain_path add_plain_paths conf_reload
    new_path_manager lookup insert delete clone_credentials sort
cam_stays = rw (turned_differs, turned_same) refl

conf_reload-Follows_example : Follows cam_ref camera turned_confs (conf_reload turned_confs manager)
unfolding add_plain_path add_plain_paths create_path new_path_manager lookup insert
conf_reload-Follows_example =
    conf_reload-Follows turned_confs manager "cam" cam_ref camera (new_path_manager-Inv confs) refl
      refl cam_stays
