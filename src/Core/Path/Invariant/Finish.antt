-- ===== src/Core/Path/Invariant/Finish.antt =====
-- The end of `run` in internal/core/path.go: the path lets go of all that it holds.
use rtc_simple_server.Base.{
  false, ◌||◌, Option, none, some, List, [], ◌∷◌, ◌≡◌, refl, arith, is_some, Bool-cases, inl, inr,
  if◌then◌else◌,
}
use rtc_simple_server.Core.Path.State.{
  terminated, path_closed, DescribeRes, SetupRes, redirect, static_source, fresh, running, stopped,
  publisher_closed, static_stopped, publisher, Source, Effect, PathState, ok, emit,
}
use rtc_simple_server.Core.Path.Source.{static_stop, stop_run, source_set_not_ready}
use rtc_simple_server.Core.Path.OnDemand.{close_demand_cmd}
use rtc_simple_server.Core.Path.Run.{source_close, close_init_cmd, leave, finish}
use rtc_simple_server.Core.Path.Invariant.Defs.{Inv, IsFinished, is_running}
use rtc_simple_server.Core.Path.Invariant.Updates.{
  source_set_not_ready_update, answer_describes_update, answer_readers_update,
  close_demand_cmd_update,
}

-- The path at the end of `run`, when only its source is left to close.
record IsEnding (p : PathState) : Type 0 where
  ending_no_stream : p.stream ≡ none
  ending_no_readers : p.readers ≡ []
  ending_no_ready_cmd : p.ready_cmd ≡ false
  ending_static_timers : (p.static_ready_timer || p.static_close_timer) ≡ false
  ending_publisher_timers : (p.publisher_ready_timer || p.publisher_close_timer) ≡ false

-- The record that `finish` returns, from what closing the source left.
abbrev ended : PathState → PathState
ended q = record (close_demand_cmd q) { alive = false }

ended-IsFinished : (q : PathState) → IsEnding q → is_running q.source ≡ false → IsFinished (ended q)
ended-IsFinished q v r = let (s, e) = close_demand_cmd_update q in rw e (ground arith)

source_close_ends :
    (p : PathState) (source : Option Source)
    → p.source ≡ source
    → IsEnding p
    → (q : PathState) × (source_close p ≡ ok q) × IsEnding q × (is_running q.source ≡ false)
unfolding source_close static_stop stop_run
source_close_ends p none e v = (p, ground arith, v, ground arith)
source_close_ends p (some redirect) e v = (p, ground arith, v, ground arith)
source_close_ends p (some (publisher a)) e v =
    (emit (publisher_closed a) p, ground arith, ground arith, ground arith)
source_close_ends p (some (static_source fresh)) e v = (p, ground arith, v, ground arith)
source_close_ends p (some (static_source stopped)) e v = (p, ground arith, v, ground arith)
source_close_ends p (some (static_source running)) e v = (
  emit static_stopped (record p { source = some (static_source stopped) }),
  ground arith,
  ground arith,
  refl,
)

-- The path when its commands and requests have been dealt with.
abbrev answered : PathState → List Effect → PathState
answered p s = record p {
  static_ready_timer = false;
  static_close_timer = false;
  publisher_ready_timer = false;
  publisher_close_timer = false;
  sent = s;
}

abbrev closing_path : PathState → PathState
closing_path p = answered p (path_closed ∷ p.sent)

leave_update : (p : PathState) → (s : List Effect) × (leave p ≡ answered p s)
unfolding leave
leave_update p =
    let r = close_init_cmd (closing_path p) in
    let c : r ≡ answered p r.sent = ground arith in
    let (s, d) =
      answer_describes_update (DescribeRes.failed terminated) p.describe_on_hold
        (answered p r.sent) in
    let (t, e) =
      answer_readers_update (SetupRes.failed terminated) p.reader_on_hold (answered p s) in
    (t, rw (c, d) e)

silence-IsEnding :
    (p : PathState) (s : List Effect)
    → Inv p
    → (let t = answered p s in IsEnding (if is_some t.stream then source_set_not_ready t else t))
silence-IsEnding p s v = elim (Bool-cases (is_some p.stream)) [
  | inl h ↦ let (t, e) = source_set_not_ready_update (answered p s) in rw (h, e) (ground arith)
  | inr h ↦ rw h (ground arith)
]

-- The end of `run` does not panic, and leaves no stream, no reader, no running source, no command and
-- no armed timer.
pub finish_ends : (p : PathState) → Inv p → (q : PathState) × (finish p ≡ ok q) × IsFinished q
unfolding finish
finish_ends p v =
    let (s, e) = leave_update p in
    let (q, f, w, r) = source_close_ends _ _ refl (silence-IsEnding p s v) in
    (ended q, rw (e, f), ended-IsFinished q w r)
