-- ===== src/Core/Path/Run.antt =====
-- internal/core/path.go: the event loop of a path, from its start to its end.
use text.Mathlib.Text.{◌==◌ as str_eq}
use rtc_simple_server.Base.{
  ℕ, Bool, true, false, not, ◌&&◌, none, some, [], is_some, is_empty, if◌then◌else◌,
}
use rtc_simple_server.Conf.PathConf.{PathConf, has_static_source, is_redirect}
use rtc_simple_server.Core.Path.State.{
  initial, fresh, running, publisher, redirect, static_source, Medias, DescribeReq, ReaderAddReq,
  timed_out, terminated, DescribeRes, SetupRes, publisher_closed, path_closed, done,
  init_cmd_started, init_cmd_closed, PathState, Result, ok, ◌>>=◌, emit,
}
use rtc_simple_server.Core.Path.Source.{
  static_start, static_stop, static_reload_conf, source_set_not_ready,
}
use rtc_simple_server.Core.Path.OnDemand.{
  on_demand_static_source_stop, on_demand_publisher_stop, close_demand_cmd, fail_on_hold,
  answer_describes, answer_readers,
}
use rtc_simple_server.Core.Path.Handlers.{
  handle_describe, handle_publisher_remove, handle_publisher_add, handle_publisher_start,
  handle_publisher_stop, handle_reader_add, handle_reader_remove, handle_static_set_ready,
  handle_static_set_not_ready,
}

-- What the `select` of `run` can receive.
pub data Event : Type 0 where
  static_ready_timer_fires static_close_timer_fires : Event
  publisher_ready_timer_fires publisher_close_timer_fires : Event
  reload_conf : PathConf → Event
  static_set_ready : Medias → ℕ → Event
  static_set_not_ready : ℕ → Event
  describe : DescribeReq → Event
  publisher_remove : ℕ → ℕ → Event
  publisher_add : ℕ → ℕ → Event
  publisher_start : ℕ → Medias → ℕ → Event
  publisher_stop : ℕ → ℕ → Event
  reader_add : ReaderAddReq → Event
  reader_remove : ℕ → ℕ → Event
  api_paths_list : ℕ → Event
  terminate : Event

-- `newPath`, as far as the loop sees it.
unfoldable pub new_path : PathConf → PathState
new_path c = record {
  conf = c;
  source = none;
  stream = none;
  readers = [];
  describe_on_hold = [];
  reader_on_hold = [];
  init_cmd = false;
  demand_cmd = false;
  ready_cmd = false;
  static_state = initial;
  static_ready_timer = false;
  static_close_timer = false;
  publisher_state = initial;
  publisher_ready_timer = false;
  publisher_close_timer = false;
  alive = true;
  sent = [];
}

-- The part of `run` before the loop.
unfoldable pub start : PathState → Result PathState
start p = do
  q ←
      if is_redirect p.conf
      then ok (record p { source = some redirect })
      else if has_static_source p.conf
      then (let q = record p { source = some (static_source fresh) } in
          if q.conf.source_on_demand then ok q else static_start q)
      else ok p
  ok (
      if str_eq q.conf.run_on_init ""
      then q
      else emit init_cmd_started (record q { init_cmd = true }))

unfoldable pub should_close : PathState → Bool
should_close p =
    p.conf.regexp
    && not (is_some p.source)
    && is_empty p.readers
    && is_empty p.describe_on_hold
    && is_empty p.reader_on_hold

-- `source.close()`, if the source has one.
unfoldable pub source_close : PathState → Result PathState
source_close p = elim p.source [
  | some (static_source running) ↦ static_stop p
  | some (publisher a) ↦ ok (emit (publisher_closed a) p)
  | _ ↦ ok p
]

unfoldable pub close_init_cmd : PathState → PathState
close_init_cmd p = if p.init_cmd then emit init_cmd_closed p else p

-- The part of `run` after the loop, up to the answers to the requests on hold, which stay in the lists.
unfoldable pub leave : PathState → PathState
unfolding close_init_cmd
leave p =
    let q = record (emit path_closed p) {
      static_ready_timer = false;
      static_close_timer = false;
      publisher_ready_timer = false;
      publisher_close_timer = false;
    } in
    let r = close_init_cmd q in
    let s = answer_describes (DescribeRes.failed terminated) r.describe_on_hold r in
    answer_readers (SetupRes.failed terminated) s.reader_on_hold s

-- The rest: the stream, the source and the command on demand.
unfoldable pub finish : PathState → Result PathState
finish p = do
  let q = leave p
  r ← source_close (if is_some q.stream then source_set_not_ready q else q)
  ok (record (close_demand_cmd r) { alive = false })

-- `if pa.shouldClose() { return … }`, as it stands behind most cases.
unfoldable pub close_if_unused : PathState → Result PathState
close_if_unused p = if should_close p then finish p else ok p

-- A timer that fires is no longer armed.
unfoldable pub step : Event → PathState → Result PathState
step static_ready_timer_fires p = do
  q ←
      on_demand_static_source_stop
        (fail_on_hold timed_out (record p { static_ready_timer = false }))
  close_if_unused q
step static_close_timer_fires p = do
  q ← on_demand_static_source_stop (source_set_not_ready (record p { static_close_timer = false }))
  close_if_unused q
step publisher_ready_timer_fires p = do
  q ← on_demand_publisher_stop (fail_on_hold timed_out (record p { publisher_ready_timer = false }))
  close_if_unused q
step publisher_close_timer_fires p = do
  q ← on_demand_publisher_stop (record p { publisher_close_timer = false })
  close_if_unused q
step (reload_conf c) p = do
  q ← if has_static_source p.conf then static_reload_conf p else ok p
  ok (record q { conf = c })
step (static_set_ready m res) p = ok (handle_static_set_ready m res p)
step (static_set_not_ready res) p = do q ← handle_static_set_not_ready res p; close_if_unused q
step (describe req) p = do q ← handle_describe req p; close_if_unused q
step (publisher_remove author res) p = do
  q ← handle_publisher_remove author res p
  close_if_unused q
step (publisher_add author res) p = handle_publisher_add author res p
step (publisher_start author m res) p = ok (handle_publisher_start author m res p)
step (publisher_stop author res) p = do q ← handle_publisher_stop author res p; close_if_unused q
step (reader_add req) p = do q ← handle_reader_add req p; close_if_unused q
step (reader_remove author res) p = ok (handle_reader_remove author res p)
step (api_paths_list res) p = ok (emit (done res) p)
step terminate p = finish p
