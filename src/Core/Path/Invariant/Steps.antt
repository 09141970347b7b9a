-- ===== src/Core/Path/Invariant/Steps.antt =====
-- One event of a path, and the configuration that it starts with.
use rtc_simple_server.Base.{true, false, [], ◌≡◌, refl, ap, arith, Bool-cases, inl, inr}
use rtc_simple_server.Conf.PathConf.{
  PathConf, has_static_source, has_on_demand_static_source, has_on_demand_publisher, is_redirect,
  is_publisher,
}
use rtc_simple_server.Core.Path.State.{timed_out, PathState, Result, ok, panic, ◌>>=◌}
use rtc_simple_server.Core.Path.Source.{
  static_stop, static_start, start_run, stop_run, static_reload_conf, source_set_not_ready,
}
use rtc_simple_server.Core.Path.OnDemand.{
  on_demand_static_source_stop, on_demand_publisher_stop, fail_on_hold,
}
use rtc_simple_server.Core.Path.Run.{
  Event, static_ready_timer_fires, static_close_timer_fires, publisher_ready_timer_fires,
  publisher_close_timer_fires, reload_conf, static_set_ready, static_set_not_ready, describe,
  publisher_remove, publisher_add, publisher_start, publisher_stop, reader_add, reader_remove,
  api_paths_list, terminate, new_path, start, should_close, close_if_unused, step,
}
use rtc_simple_server.Core.Path.Invariant.Defs.{
  IsChecked, Inv, Updatable, Allowed, Safe, SafeEnd, is_fresh,
}
use rtc_simple_server.Core.Path.Invariant.Updates.{source_set_not_ready_update, fail_on_hold_update}
use rtc_simple_server.Core.Path.Invariant.OnDemand.{on_demand_publisher_stop-Inv}
use rtc_simple_server.Core.Path.Invariant.Readers.{
  handle_describe-Inv, handle_reader_add-Inv, handle_reader_remove-Inv, emit-Inv,
}
use rtc_simple_server.Core.Path.Invariant.Publishers.{
  handle_publisher_remove-Inv, handle_publisher_add-Inv, handle_publisher_start-Inv,
  handle_publisher_stop-Inv, handle_static_set_ready-Inv, handle_static_set_not_ready-Inv,
}
use rtc_simple_server.Core.Path.Invariant.Finish.{finish_ends}

pub close_if_unused-SafeEnd : (p : PathState) → Inv p → SafeEnd (close_if_unused p)
unfolding close_if_unused
close_if_unused-SafeEnd p v = elim (Bool-cases (should_close p)) [
  | inl c ↦ let (q, e, w) = finish_ends p v in rw (c, e) (inr w)
  | inr c ↦ rw c (inl v)
]

then_close : (r : Result PathState) → Safe r → SafeEnd (r >>= close_if_unused)
then_close (ok p) v = close_if_unused-SafeEnd p v
then_close (panic f) v = v

static_ready_timer_step :
    (p : PathState)
    → Inv p
    → p.static_ready_timer ≡ true
    → Safe (
        on_demand_static_source_stop
          (fail_on_hold timed_out (record p { static_ready_timer = false })))
unfolding on_demand_static_source_stop static_stop stop_run has_on_demand_static_source
static_ready_timer_step p v t =
    let (s, e) = fail_on_hold_update timed_out (record p { static_ready_timer = false }) in
    rw e (ground arith)

static_close_timer_step :
    (p : PathState)
    → Inv p
    → p.static_close_timer ≡ true
    → Safe (
        on_demand_static_source_stop
          (source_set_not_ready (record p { static_close_timer = false })))
unfolding on_demand_static_source_stop static_stop stop_run has_on_demand_static_source
static_close_timer_step p v t =
    let (s, e) = source_set_not_ready_update (record p { static_close_timer = false }) in
    rw e (ground arith)

publisher_ready_timer_step :
    (p : PathState)
    → Inv p
    → p.publisher_ready_timer ≡ true
    → Safe (
        on_demand_publisher_stop
          (fail_on_hold timed_out (record p { publisher_ready_timer = false })))
publisher_ready_timer_step p v t =
    let (s, e) = fail_on_hold_update timed_out (record p { publisher_ready_timer = false }) in
    let (q, f, w, c, n) =
      on_demand_publisher_stop-Inv p false p.publisher_close_timer [] [] s v (ground arith) refl
        (ground arith) refl refl in
    rw (e, f) w

publisher_close_timer_step :
    (p : PathState)
    → Inv p
    → p.publisher_close_timer ≡ true
    → Safe (on_demand_publisher_stop (record p { publisher_close_timer = false }))
unfolding has_on_demand_static_source
publisher_close_timer_step p v t =
    let (q, f, w, c, n) =
      on_demand_publisher_stop-Inv p p.publisher_ready_timer false p.describe_on_hold
        p.reader_on_hold p.sent v (ground arith) (ground arith) (λ _. refl) (ground arith)
        (ground arith) in
    rw f w

-- The settings of a camera do not change what kind of source a path has.
module _ (c d : PathConf) (u : Updatable c d) where
  updatable_static : has_static_source d ≡ has_static_source c
  unfolding has_static_source
  updatable_static = ap has_static_source u.same

  updatable_on_demand_static : has_on_demand_static_source d ≡ has_on_demand_static_source c
  unfolding has_on_demand_static_source has_static_source
  updatable_on_demand_static = ap has_on_demand_static_source u.same

  updatable_on_demand_publisher : has_on_demand_publisher d ≡ has_on_demand_publisher c
  unfolding has_on_demand_publisher
  updatable_on_demand_publisher = ap has_on_demand_publisher u.same

  updatable_redirect : is_redirect d ≡ is_redirect c
  unfolding is_redirect
  updatable_redirect = ap is_redirect u.same

  updatable_publisher : is_publisher d ≡ is_publisher c
  unfolding is_publisher
  updatable_publisher = ap is_publisher u.same

reload-Inv :
    (c : PathConf) (p : PathState)
    → Inv p
    → Updatable p.conf c
    → is_fresh p.source ≡ false
    → Safe (step (reload_conf c) p)
unfolding step static_reload_conf
reload-Inv c p v u f = ground (
  arith,
  updatable_static p.conf c u,
  updatable_on_demand_static p.conf c u,
  updatable_on_demand_publisher p.conf c u,
  updatable_redirect p.conf c u,
  updatable_publisher p.conf c u,
)

safe_end : (r : Result PathState) → Safe r → SafeEnd r
safe_end (ok p) v = inl v
safe_end (panic f) v = v

-- No event makes a path panic, and each leaves its invariant in force or ends the path with nothing left
-- open.
pub step-Inv : (e : Event) (p : PathState) → Inv p → Allowed e p → SafeEnd (step e p)
unfolding step
step-Inv static_ready_timer_fires p v a = then_close _ (static_ready_timer_step p v a)
step-Inv static_close_timer_fires p v a = then_close _ (static_close_timer_step p v a)
step-Inv publisher_ready_timer_fires p v a = then_close _ (publisher_ready_timer_step p v a)
step-Inv publisher_close_timer_fires p v a = then_close _ (publisher_close_timer_step p v a)
step-Inv (reload_conf c) p v a = safe_end _ (reload-Inv c p v a.0 a.1)
step-Inv (static_set_ready m res) p v a = inl (handle_static_set_ready-Inv m res p v a.0 a.1)
step-Inv (static_set_not_ready res) p v a =
    then_close _ (handle_static_set_not_ready-Inv res p v a.0 a.1)
step-Inv (describe req) p v a = then_close _ (handle_describe-Inv req p v)
step-Inv (publisher_remove author res) p v a =
    then_close _ (handle_publisher_remove-Inv author res p v)
step-Inv (publisher_add author res) p v a = safe_end _ (handle_publisher_add-Inv author res p v)
step-Inv (publisher_start author m res) p v a = inl (handle_publisher_start-Inv author m res p v a)
step-Inv (publisher_stop author res) p v a = then_close _ (handle_publisher_stop-Inv author res p v)
step-Inv (reader_add req) p v a = then_close _ (handle_reader_add-Inv req p v)
step-Inv (reader_remove author res) p v a = inl (handle_reader_remove-Inv author res p v)
step-Inv (api_paths_list res) p v a = inl (emit-Inv _ p v)
step-Inv terminate p v a = let (q, e, w) = finish_ends p v in rw e (inr w)

pub start-Inv : (c : PathConf) → IsChecked c → Safe (start (new_path c))
unfolding start new_path static_start start_run has_on_demand_static_source
start-Inv c v = ground arith
