-- ===== src/Core/Path/Handlers.antt =====
-- internal/core/path.go: the handlers of the requests that a path gets.
use text.Mathlib.Text.{◌==◌ as str_eq, starts_with}
use Prim.Native.String.{String}
use rtc_simple_server.Base.{
  ℕ, Bool, true, false, not, ◌&&◌, Option, none, some, [], ◌∷◌, ◌++◌, is_some, is_empty, contains,
  if◌then◌else◌, ◌==◌,
}
use rtc_simple_server.Conf.PathConf.{
  has_on_demand_static_source, has_on_demand_publisher, is_publisher,
}
use rtc_simple_server.Core.Path.State.{
  is_initial, is_ready, Source, publisher, redirect, Medias, Url, DescribeReq, ReaderAddReq,
  no_one_publishing, source_not_publisher, already_publishing, not_assigned, stream_error, Target,
  same_host, DescribeRes, redirect_to, SetupRes, describe_reply, reader_reply, publisher_reply,
  start_reply, static_reply, done, PathState, Result, ok, ◌>>=◌, emit,
}
use rtc_simple_server.Core.Path.Source.{
  publisher_close, do_reader_remove, source_set_not_ready, source_set_ready,
}
use rtc_simple_server.Core.Path.OnDemand.{
  on_demand_static_source_start, on_demand_static_source_schedule_close,
  on_demand_static_source_stop, on_demand_publisher_start, on_demand_publisher_schedule_close,
  do_publisher_remove, on_demand_publisher_stop, handle_reader_add_post, serve_on_hold,
}

-- `_, ok := pa.source.(*sourceRedirect)`
abbrev pub is_source_redirect : Option Source → Bool
is_source_redirect (some redirect) = true
is_source_redirect _ = false

-- `pa.source == req.author`
abbrev pub is_author : ℕ → Option Source → Bool
is_author a (some (publisher b)) = b == a
is_author a _ = false

unfoldable pub fallback_url : Url → String → Target
fallback_url u f = if starts_with f "/" then same_host u f else Target.url f

-- Both kinds of requests start the source, if there is one to start, and wait.
unfoldable pub demand_static : PathState → Result PathState
demand_static p = if is_initial p.static_state then on_demand_static_source_start p else ok p

unfoldable pub demand_publisher : PathState → PathState
demand_publisher p = if is_initial p.publisher_state then on_demand_publisher_start p else p

unfoldable pub hold_describe : DescribeReq → PathState → PathState
hold_describe req p = record p { describe_on_hold = p.describe_on_hold ++ (req ∷ []) }

unfoldable pub hold_reader : ReaderAddReq → PathState → PathState
hold_reader req p = record p { reader_on_hold = p.reader_on_hold ++ (req ∷ []) }

unfoldable pub handle_describe : DescribeReq → PathState → Result PathState
handle_describe req p =
    if is_source_redirect p.source
    then ok (emit (describe_reply req.res (redirect_to (Target.url p.conf.source_redirect))) p)
    else if is_some p.stream
    then ok (emit (describe_reply req.res (DescribeRes.stream p.stream)) p)
    else if has_on_demand_static_source p.conf
    then (do q ← demand_static p; ok (hold_describe req q))
    else if has_on_demand_publisher p.conf
    then ok (hold_describe req (demand_publisher p))
    else if not (str_eq p.conf.fallback "")
    then ok (emit (describe_reply req.res (redirect_to (fallback_url req.url p.conf.fallback))) p)
    else ok (emit (describe_reply req.res (DescribeRes.failed no_one_publishing)) p)

unfoldable pub handle_publisher_remove : ℕ → ℕ → PathState → Result PathState
handle_publisher_remove author res p = do
  q ← if is_author author p.source then do_publisher_remove p else ok p
  ok (emit (done res) q)

unfoldable pub handle_publisher_add : ℕ → ℕ → PathState → Result PathState
handle_publisher_add author res p =
    if not (is_publisher p.conf)
    then ok (emit (publisher_reply res (SetupRes.failed source_not_publisher)) p)
    else if is_some p.source && p.conf.disable_publisher_override
    then ok (emit (publisher_reply res (SetupRes.failed already_publishing)) p)
    else do
      q ← if is_some p.source then (publisher_close p >>= do_publisher_remove) else ok p
      ok (emit (publisher_reply res SetupRes.path) (record q { source = some (publisher author) }))

unfoldable pub handle_publisher_start : ℕ → Medias → ℕ → PathState → PathState
handle_publisher_start author m res p =
    if is_author author p.source
    then elim (source_set_ready m p) [
      | none ↦ emit (start_reply res (SetupRes.failed stream_error)) p
      | some q ↦
          let r =
            if has_on_demand_publisher q.conf
            then serve_on_hold
                (on_demand_publisher_schedule_close (record q { publisher_ready_timer = false }))
            else q in
          emit (start_reply res (SetupRes.stream r.stream)) r
    ]
    else emit (start_reply res (SetupRes.failed not_assigned)) p

unfoldable pub handle_publisher_stop : ℕ → ℕ → PathState → Result PathState
handle_publisher_stop author res p = do
  q ←
      if is_author author p.source && is_some p.stream
      then (if has_on_demand_publisher p.conf && not (is_initial p.publisher_state)
          then on_demand_publisher_stop p
          else ok (source_set_not_ready p))
      else ok p
  ok (emit (done res) q)

unfoldable pub handle_reader_remove : ℕ → ℕ → PathState → PathState
unfolding do_reader_remove
handle_reader_remove author res p =
    let q = if contains p.readers author then do_reader_remove author p else p in
    let r = emit (done res) q in
    if is_empty r.readers
    then (if has_on_demand_static_source r.conf
        then (if is_ready r.static_state then on_demand_static_source_schedule_close r else r)
        else if has_on_demand_publisher r.conf
        then (if is_ready r.publisher_state then on_demand_publisher_schedule_close r else r)
        else r)
    else r

unfoldable pub handle_reader_add : ReaderAddReq → PathState → Result PathState
handle_reader_add req p =
    if is_some p.stream
    then ok (handle_reader_add_post req p)
    else if has_on_demand_static_source p.conf
    then (do q ← demand_static p; ok (hold_reader req q))
    else if has_on_demand_publisher p.conf
    then ok (hold_reader req (demand_publisher p))
    else ok (emit (reader_reply req.res (SetupRes.failed no_one_publishing)) p)

-- The case of `run` for a static source that has become ready.
unfoldable pub handle_static_set_ready : Medias → ℕ → PathState → PathState
handle_static_set_ready m res p = elim (source_set_ready m p) [
  | none ↦ emit (static_reply res (SetupRes.failed stream_error)) p
  | some q ↦
      let r =
        if has_on_demand_static_source q.conf
        then serve_on_hold
            (on_demand_static_source_schedule_close (record q { static_ready_timer = false }))
        else q in
      emit (static_reply res (SetupRes.stream r.stream)) r
]

-- The case of `run` for a static source that is no longer ready.
unfoldable pub handle_static_set_not_ready : ℕ → PathState → Result PathState
handle_static_set_not_ready res p =
    let q = emit (done res) (source_set_not_ready p) in
    if has_on_demand_static_source q.conf && not (is_initial q.static_state)
    then on_demand_static_source_stop q
    else ok q
