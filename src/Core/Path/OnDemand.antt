-- ===== src/Core/Path/OnDemand.antt =====
-- internal/core/path.go: the start, the delayed close and the stop of a source on demand, and what
-- happens to the requests that wait for it.
use rtc_simple_server.Base.{
  ℕ, zero, suc, true, false, not, ◌&&◌, none, List, [], ◌∷◌, is_some, add_key, if◌then◌else◌,
}
use rtc_simple_server.Conf.PathConf.{has_on_demand_static_source, has_on_demand_publisher}
use rtc_simple_server.Core.Path.State.{
  initial, waiting_ready, ready, closing, is_initial, is_closing, DescribeReq, ReaderAddReq,
  PathError, DescribeRes, SetupRes, describe_reply, reader_reply, demand_cmd_started,
  demand_cmd_closed, PathState, out_of_fuel, Result, ok, panic, ◌>>=◌, emit,
}
use rtc_simple_server.Core.Path.Source.{
  static_start, static_stop, publisher_close, source_set_not_ready,
}

unfoldable pub on_demand_static_source_start : PathState → Result PathState
on_demand_static_source_start p = do
  q ← static_start p
  ok (record q { static_ready_timer = true; static_state = waiting_ready })

unfoldable pub on_demand_static_source_schedule_close : PathState → PathState
on_demand_static_source_schedule_close p = record p {
  static_close_timer = true;
  static_state = closing;
}

unfoldable pub on_demand_static_source_stop : PathState → Result PathState
on_demand_static_source_stop p =
    let q = if is_closing p.static_state then record p { static_close_timer = false } else p in
    static_stop (record q { static_state = initial })

unfoldable pub on_demand_publisher_start : PathState → PathState
on_demand_publisher_start p = record (emit demand_cmd_started (record p { demand_cmd = true })) {
  publisher_ready_timer = true;
  publisher_state = waiting_ready;
}

unfoldable pub on_demand_publisher_schedule_close : PathState → PathState
on_demand_publisher_schedule_close p = record p {
  publisher_close_timer = true;
  publisher_state = closing;
}

unfoldable pub close_demand_cmd : PathState → PathState
close_demand_cmd p =
    if p.demand_cmd then emit demand_cmd_closed (record p { demand_cmd = false }) else p

-- The first lines of `onDemandPublisherStop`: the timer and the state.
unfoldable pub reset_publisher : PathState → PathState
reset_publisher p =
    let q =
      if is_closing p.publisher_state then record p { publisher_close_timer = false } else p in
    record q { publisher_state = initial }

-- `onDemandPublisherStop` and `doPublisherRemove` call each other. This is the first, over the second.
unfoldable pub publisher_stop_with : (PathState → Result PathState) → PathState → Result PathState
publisher_stop_with remove p = do
  let q = reset_publisher p
  r ← if is_some q.source then (publisher_close q >>= remove) else ok q
  ok (close_demand_cmd r)

-- The second, with a bound on how deep the calls go.
unfoldable pub publisher_remove_depth : ℕ → PathState → Result PathState
publisher_remove_depth zero p = panic out_of_fuel
publisher_remove_depth (suc n) p = do
  q ←
      if is_some p.stream
      then (if has_on_demand_publisher p.conf && not (is_initial p.publisher_state)
          then publisher_stop_with (publisher_remove_depth n) p
          else ok (source_set_not_ready p))
      else ok p
  ok (record q { source = none })

-- The stop sets the state before it calls back, so two levels are enough.
unfoldable pub do_publisher_remove : PathState → Result PathState
do_publisher_remove = publisher_remove_depth 2

unfoldable pub on_demand_publisher_stop : PathState → Result PathState
on_demand_publisher_stop = publisher_stop_with (publisher_remove_depth 1)

unfoldable pub handle_reader_add_post : ReaderAddReq → PathState → PathState
handle_reader_add_post req p =
    let q = record p { readers = add_key req.author p.readers } in
    let r =
      if has_on_demand_static_source q.conf
      then (if is_closing q.static_state
          then record q { static_state = ready; static_close_timer = false }
          else q)
      else if has_on_demand_publisher q.conf
      then (if is_closing q.publisher_state
          then record q { publisher_state = ready; publisher_close_timer = false }
          else q)
      else q in
    emit (reader_reply req.res (SetupRes.stream r.stream)) r

unfoldable pub answer_describes : DescribeRes → List DescribeReq → PathState → PathState
answer_describes a [] p = p
answer_describes a (req ∷ reqs) p = answer_describes a reqs (emit (describe_reply req.res a) p)

unfoldable pub answer_readers : SetupRes → List ReaderAddReq → PathState → PathState
answer_readers a [] p = p
answer_readers a (req ∷ reqs) p = answer_readers a reqs (emit (reader_reply req.res a) p)

unfoldable pub add_readers : List ReaderAddReq → PathState → PathState
add_readers [] p = p
add_readers (req ∷ reqs) p = add_readers reqs (handle_reader_add_post req p)

-- All requests on hold fail, and none stays on hold.
unfoldable pub fail_on_hold : PathError → PathState → PathState
fail_on_hold e p =
    let q = record (answer_describes (DescribeRes.failed e) p.describe_on_hold p) {
      describe_on_hold = [];
    } in
    record (answer_readers (SetupRes.failed e) q.reader_on_hold q) { reader_on_hold = [] }

-- All requests on hold get the stream, and none stays on hold.
unfoldable pub serve_on_hold : PathState → PathState
serve_on_hold p =
    let q = record (answer_describes (DescribeRes.stream p.stream) p.describe_on_hold p) {
      describe_on_hold = [];
    } in
    record (add_readers q.reader_on_hold q) { reader_on_hold = [] }
