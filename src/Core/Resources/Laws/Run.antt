-- ===== src/Core/Resources/Laws/Run.antt =====
-- What holds of the core of internal/core/core.go from its start to its end.
use rtc_simple_server.Base.{
  if_keeps, if◌then◌else◌, is_some, suc, ◌≡◌, refl, sym, ap, subst, ◌∙◌, inl, inr, ◌⊎◌, ◌↔◌, Bool,
  true, false, not, ◌&&◌, Option, none, some, List, [], ◌∷◌, arith,
}
use rtc_simple_server.Core.Resources.Settings.{
  CoreConf, Part, logger, path_manager, rtsp_server, rtsps_server, rtmp_server, rtmps_server,
  hls_server, webrtc_server,
}
use rtc_simple_server.Core.Resources.Inputs.{wanted, compared}
use rtc_simple_server.Core.Resources.Defs.{
  Core, Created, created, failed, create, create_from, creation_order, create_resources, closes,
  close_resources, reload_conf, settings_differ, set_part, close_logger, close_metrics, close_pprof,
  close_path_manager, close_rtsp_server, close_rtsps_server, close_rtmp_server, close_rtmps_server,
  close_hls_server, close_webrtc_server, close_api,
}
use rtc_simple_server.Core.Resources.Run.{
  Life, not_started, running, ended, panicked, CoreEvent, conf_changed, api_conf_set, interrupt,
  ctx_done, new_core, shut_down, after_reload, after_start, start_core, core_step, core_run,
}
use rtc_simple_server.Core.Resources.Laws.Closed.{close_resources-parts, set_part-same}
use rtc_simple_server.Core.Resources.Laws.Made.{creation_order-ordered}
use rtc_simple_server.Core.Resources.Laws.Told.{Informed, Informed-any}
use rtc_simple_server.Core.Resources.Laws.Progress.{UpToDate, KeptUpToDate, Current-is_some}
use rtc_simple_server.Core.Resources.Laws.Reload.{
  Outcome, Known, create_from-steps, create_from-Outcome, create_from-Known, reload_conf-Outcome,
  all_created,
}

-- A core that every part of the new configuration differs from.
abbrev other_core : CoreConf → Core
other_core new = new_core (λ s. suc (new s))

closes_other : (k : Part) (new : CoreConf) → closes k (some new) (λ s. suc (new s)) ≡ true
unfolding closes close_logger close_metrics close_pprof close_path_manager close_rtsp_server
    close_rtsps_server close_rtmp_server close_rtmps_server close_hls_server close_webrtc_server
    close_api settings_differ compared
closes_other logger new = ground arith
closes_other Part.metrics new = ground arith
closes_other Part.pprof new = ground arith
closes_other path_manager new = ground arith
closes_other rtsp_server new = ground arith
closes_other rtsps_server new = ground arith
closes_other rtmp_server new = ground arith
closes_other rtmps_server new = ground arith
closes_other hls_server new = ground arith
closes_other webrtc_server new = ground arith
closes_other Part.api new = ground arith

closes-none : (k : Part) (old : CoreConf) → closes k none old ≡ true
unfolding closes close_logger close_metrics close_pprof close_path_manager close_rtsp_server
    close_rtsps_server close_rtmp_server close_rtmps_server close_hls_server close_webrtc_server
    close_api settings_differ
closes-none logger old = refl
closes-none Part.metrics old = refl
closes-none Part.pprof old = refl
closes-none path_manager old = refl
closes-none rtsp_server old = refl
closes-none rtsps_server old = refl
closes-none rtmp_server old = refl
closes-none rtmps_server old = refl
closes-none hls_server old = refl
closes-none webrtc_server old = refl
closes-none Part.api old = refl

new_core-Outcome :
    (opens : Part → CoreConf → Bool) (conf : CoreConf)
    → Outcome opens conf (create_resources opens (new_core conf))
unfolding create_resources new_core KeptUpToDate
new_core-Outcome opens conf =
    create_from-Outcome opens (other_core conf) conf creation_order (new_core conf)
      (λ k e. ground (arith, e, closes_other k conf)) creation_order-ordered
      (record {
        conf = refl;
        kept = λ k e. ground (arith, e, closes_other k conf);
        gone = λ k e h. refl;
        made = λ k e h. ground (arith, h, all_created k);
      })

new_core-Informed : (conf : CoreConf) → Informed true (new_core conf)
unfolding Informed new_core
new_core-Informed conf = (tt, inl tt)

Known-any : (called_by_api : Bool) (c : Created) → Known called_by_api c → Known true c
unfolding Known
Known-any called_by_api (created p) h = Informed-any called_by_api p h
Known-any called_by_api (failed k p) h = tt

abbrev core_of : Created → Core
core_of (created p) = p
core_of (failed k p) = p

abbrev has_logger : Core → Bool
has_logger p = is_some (p.parts logger)

-- The parts that are created after the logger.
abbrev after_logger : List Part
after_logger =
    Part.metrics ∷ Part.pprof ∷ path_manager ∷ rtsp_server ∷ rtsps_server ∷ rtmp_server
    ∷ rtmps_server ∷ hls_server ∷ webrtc_server ∷ Part.api ∷ []

create-has_logger : (k : Part) (p : Core) → has_logger p ≡ true → has_logger (create k p) ≡ true
unfolding create set_part
create-has_logger k p h = ground (arith, h)

module _ (opens : Part → CoreConf → Bool) where
  create_from-has_logger :
      (ks : List Part) (p : Core)
      → has_logger p ≡ true
      → has_logger (core_of (create_from opens ks p)) ≡ true
  unfolding create_from
  create_from-has_logger [] p h = h
  create_from-has_logger (k ∷ ks) p h =
      create_from-steps opens k ks p (λ c. has_logger (core_of c) ≡ true)
        (λ e opened. create_from-has_logger ks (create k p) (create-has_logger k p h))
        (λ refused. h) (λ e. create_from-has_logger ks p h)

  create_from-conf : (ks : List Part) (p : Core) → (core_of (create_from opens ks p)).conf ≡ p.conf
  unfolding create_from create
  create_from-conf [] p = refl
  create_from-conf (k ∷ ks) p =
      create_from-steps opens k ks p (λ c. (core_of c).conf ≡ p.conf)
        (λ e opened. create_from-conf ks (create k p)) (λ refused. refl)
        (λ e. create_from-conf ks p)

  create_resources-has_logger :
      (p : Core)
      → (has_logger (core_of (create_resources opens p)) ≡ true) ⊎ (opens logger p.conf ≡ false)
  unfolding create_resources creation_order wanted create
  create_resources-has_logger p =
      create_from-steps opens logger after_logger p
        (λ c. (has_logger (core_of c) ≡ true) ⊎ (opens logger p.conf ≡ false))
        (λ e opened. inl (
          create_from-has_logger after_logger (create logger p)
            (ap is_some (set_part-same logger _ p.parts))))
        (λ refused. inr refused)
        (λ e. inl (create_from-has_logger after_logger p (ground (arith, e))))

  -- A core that runs has all parts up to date, with the path manager and the API informed, one that has ended has none, and the logger of one that
  -- has panicked could not be created.
  unfoldable pub SoundLife : Life → Type 0
  SoundLife not_started = Unit
  SoundLife (running p) = UpToDate p × Informed true p
  SoundLife (ended p) = (k : Part) → p.parts k ≡ none
  SoundLife (panicked c) = opens logger c ≡ false

  shut_down-SoundLife :
      (p : Core) → (has_logger p ≡ true) ⊎ (opens logger p.conf ≡ false) → SoundLife (shut_down p)
  unfolding shut_down SoundLife
  shut_down-SoundLife p h =
      if_keeps SoundLife (has_logger p) _ _
        (λ e k.
          close_resources-parts none false p k
          ∙ ap (λ b. if b then none else p.parts k) (closes-none k p.conf))
        (λ e. ground (arith, e, h))

  UpToDate-has_logger : (p : Core) → UpToDate p → has_logger p ≡ true
  unfolding UpToDate wanted
  UpToDate-has_logger p u = Current-is_some p logger (p.parts logger) (u logger)

  after_reload-SoundLife :
      (new : CoreConf) (c : Created)
      → Outcome opens new c
      → Known true c
      → (has_logger (core_of c) ≡ true) ⊎ (opens logger (core_of c).conf ≡ false)
      → SoundLife (after_reload c)
  unfolding after_reload Outcome SoundLife Known
  after_reload-SoundLife new (created p) o i h = (o.1, i)
  after_reload-SoundLife new (failed k p) o i h = shut_down-SoundLife p h

  reload_conf-SoundLife :
      (new : CoreConf) (called_by_api : Bool) (p : Core)
      → UpToDate p
      → Informed true p
      → SoundLife (after_reload (reload_conf opens new called_by_api p))
  unfolding reload_conf create_resources
  reload_conf-SoundLife new called_by_api p u i =
      let q : Core = record (close_resources (some new) called_by_api p) { conf = new } in
      after_reload-SoundLife new (reload_conf opens new called_by_api p)
        (reload_conf-Outcome opens new called_by_api p u i).0
        (Known-any called_by_api _ (reload_conf-Outcome opens new called_by_api p u i).1)
        (subst
          (λ c. (has_logger (core_of (create_resources opens q)) ≡ true) ⊎ (opens logger c ≡ false))
          (sym (create_from-conf creation_order q)) (create_resources-has_logger q))

  core_step-SoundLife :
      (e : CoreEvent) (p : Core) → UpToDate p → Informed true p → SoundLife (core_step opens e p)
  unfolding core_step
  core_step-SoundLife (conf_changed none) p u i =
      shut_down-SoundLife p (inl (UpToDate-has_logger p u))
  core_step-SoundLife (conf_changed (some new)) p u i = reload_conf-SoundLife new false p u i
  core_step-SoundLife (api_conf_set new) p u i = reload_conf-SoundLife new true p u i
  core_step-SoundLife interrupt p u i = shut_down-SoundLife p (inl (UpToDate-has_logger p u))
  core_step-SoundLife ctx_done p u i = shut_down-SoundLife p (inl (UpToDate-has_logger p u))

  core_run-SoundLife :
      (es : List CoreEvent) (l : Life) → SoundLife l → SoundLife (core_run opens es l)
  unfolding core_run SoundLife
  core_run-SoundLife [] l s = s
  core_run-SoundLife (e ∷ es) (running p) s =
      core_run-SoundLife es (core_step opens e p) (core_step-SoundLife e p s.0 s.1)
  core_run-SoundLife (e ∷ es) not_started s = s
  core_run-SoundLife (e ∷ es) (ended p) s = s
  core_run-SoundLife (e ∷ es) (panicked c) s = s

  after_start-SoundLife :
      (conf : CoreConf) (b : Bool) (c : Created)
      → Outcome opens conf c
      → Known true c
      → (has_logger (core_of c) ≡ true) ⊎ (opens logger (core_of c).conf ≡ false)
      → SoundLife (after_start b c)
  unfolding after_start Outcome SoundLife Known
  after_start-SoundLife conf b (created p) o i h =
      if_keeps SoundLife b _ _ (λ e. shut_down-SoundLife p h) (λ e. (o.1, i))
  after_start-SoundLife conf b (failed k p) o i h = shut_down-SoundLife p h

  start_core-SoundLife :
      (conf_found watcher_opens : Bool) (loaded : Option CoreConf)
      → SoundLife (start_core opens conf_found watcher_opens loaded)
  unfolding start_core SoundLife create_resources new_core
  start_core-SoundLife conf_found watcher_opens none = tt
  start_core-SoundLife conf_found watcher_opens (some conf) =
      after_start-SoundLife conf (conf_found && not watcher_opens)
        (create_resources opens (new_core conf)) (new_core-Outcome opens conf)
        (create_from-Known opens true creation_order (new_core conf) (new_core-Informed conf))
        (subst
          (λ c.
            (has_logger (core_of (create_resources opens (new_core conf))) ≡ true)
            ⊎ (opens logger c ≡ false))
          (sym (create_from-conf creation_order (new_core conf)))
          (create_resources-has_logger (new_core conf)))

create_from_refused :
    (opens : Part → CoreConf → Bool) (ks : List Part) (p : Core)
    → has_logger p ≡ false
    → opens logger p.conf ≡ false
    → create_from opens (logger ∷ ks) p ≡ failed logger p
unfolding create_from wanted
create_from_refused opens ks p l h = rw (h, l) refl

new_core_refused :
    (opens : Part → CoreConf → Bool) (conf : CoreConf)
    → opens logger conf ≡ false
    → create_resources opens (new_core conf) ≡ failed logger (new_core conf)
unfolding create_resources creation_order new_core
new_core_refused opens conf h = create_from_refused opens after_logger (new_core conf) refl h

after_refused :
    (b : Bool) (conf : CoreConf) → after_start b (failed logger (new_core conf)) ≡ panicked conf
unfolding after_start shut_down new_core
after_refused b conf = refl

-- From the start on, whatever comes to the core: while it runs, all parts are up to date with its
-- configuration, but for the level of the logger and the RTMPS server that the API has; the path
-- manager has been given the paths of the configuration, and the API the configuration, unless it has
-- handed one to the core itself since it was last given one; when it has ended, no part is left; and it panics only on a configuration with which
-- the logger cannot be created.
pub core_life :
    (opens : Part → CoreConf → Bool) (conf_found watcher_opens : Bool) (loaded : Option CoreConf)
    (es : List CoreEvent)
    → SoundLife opens (core_run opens es (start_core opens conf_found watcher_opens loaded))
core_life opens conf_found watcher_opens loaded es =
    core_run-SoundLife opens es (start_core opens conf_found watcher_opens loaded)
      (start_core-SoundLife opens conf_found watcher_opens loaded)

-- The start panics just where the logger cannot be created: the parts are closed then, and the logger,
-- which is nil, with them.
pub start_core_panics :
    (opens : Part → CoreConf → Bool) (conf_found watcher_opens : Bool) (conf : CoreConf)
    → (start_core opens conf_found watcher_opens (some conf) ≡ panicked conf)
      ↔ (opens logger conf ≡ false)
unfolding SoundLife start_core
start_core_panics opens conf_found watcher_opens conf = (
  λ e. subst (SoundLife opens) e (start_core-SoundLife opens conf_found watcher_opens (some conf)),
  λ h.
      ap (after_start (conf_found && not watcher_opens)) (new_core_refused opens conf h)
      ∙ after_refused (conf_found && not watcher_opens) conf,
)
