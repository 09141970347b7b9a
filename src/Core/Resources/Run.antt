-- ===== src/Core/Resources/Run.antt =====
-- `New` and `run` of internal/core/core.go: the start of the core, what reaches it while it runs, and
-- its end.
use rtc_simple_server.Base.{
  if◌then◌else◌, is_some, Bool, true, false, not, ◌&&◌, Option, none, some, List, [], ◌∷◌,
}
use rtc_simple_server.Core.Resources.Settings.{CoreConf, Part, logger}
use rtc_simple_server.Core.Resources.Defs.{
  Core, Created, created, failed, create_resources, close_resources, reload_conf,
}

-- `panicked` is the use of a logger that is nil, under the configuration that is given.
pub data Life : Type 0 where
  not_started : Life
  running : Core → Life
  ended : Core → Life
  panicked : CoreConf → Life

-- What the select of `run` receives: the configuration that was loaded from a file that has changed, if
-- there was no error, or that the API has set.
pub data CoreEvent : Type 0 where
  conf_changed : Option CoreConf → CoreEvent
  api_conf_set : CoreConf → CoreEvent
  interrupt : CoreEvent
  ctx_done : CoreEvent

unfoldable pub new_core : CoreConf → Core
new_core conf = record {
  conf = conf;
  parts = λ k. none;
  made = 0;
  sent = [];
  manager_paths = 0;
  api_told = none;
}

-- `closeResources(nil, false)`, which closes the logger without a look at the pointer.
unfoldable pub shut_down : Core → Life
shut_down p =
    if is_some (p.parts logger) then ended (close_resources none false p) else panicked p.conf

-- An error is logged before the loop ends.
unfoldable pub after_reload : Created → Life
unfolding shut_down
after_reload (created p) = running p
after_reload (failed k p) = shut_down p

-- The end of `New`: `has_no_watcher` says that the watcher of the file, which is created last, has
-- failed.
unfoldable pub after_start : Bool → Created → Life
unfolding shut_down
after_start has_no_watcher (created p) = if has_no_watcher then shut_down p else running p
after_start has_no_watcher (failed k p) = shut_down p

module _ (opens : Part → CoreConf → Bool) where
  -- `New`; a configuration that cannot be loaded is `none`. Only a file that was found is watched.
  unfoldable pub start_core : Bool → Bool → Option CoreConf → Life
  unfolding new_core after_start create_resources
  start_core conf_found watcher_opens none = not_started
  start_core conf_found watcher_opens (some conf) =
      after_start (conf_found && not watcher_opens) (create_resources opens (new_core conf))

  unfoldable pub core_step : CoreEvent → Core → Life
  unfolding shut_down after_reload reload_conf
  core_step (conf_changed none) p = shut_down p
  core_step (conf_changed (some new)) p = after_reload (reload_conf opens new false p)
  core_step (api_conf_set new) p = after_reload (reload_conf opens new true p)
  core_step interrupt p = shut_down p
  core_step ctx_done p = shut_down p

  -- The loop of `run`, which nothing reaches after its end.
  unfoldable pub core_run : List CoreEvent → Life → Life
  unfolding core_step
  core_run [] l = l
  core_run (e ∷ es) (running p) = core_run es (core_step e p)
  core_run (e ∷ es) not_started = not_started
  core_run (e ∷ es) (ended p) = ended p
  core_run (e ∷ es) (panicked c) = panicked c
