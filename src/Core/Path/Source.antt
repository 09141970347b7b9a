-- ===== src/Core/Path/Source.antt =====
-- internal/core/path.go and source_static.go: the source of a path as it comes and goes.
use text.Mathlib.Text.{◌==◌ as str_eq}
use rtc_simple_server.Base.{
  ℕ, true, false, Option, none, some, List, [], ◌∷◌, remove_key, if◌then◌else◌,
}
use rtc_simple_server.Core.Path.State.{
  StaticRun, fresh, running, stopped, publisher, static_source, Medias, source_ready,
  source_not_ready, reader_closed, publisher_closed, static_started, static_stopped, static_reload,
  ready_cmd_started, ready_cmd_closed, PathState, wrong_source, should_not_happen, nil_context,
  Result, ok, panic, ◌>>=◌, emit,
}

-- `sourceStatic.start`, `stop` and `close`, on the source's own state.
unfoldable pub start_run : StaticRun → Result StaticRun
start_run fresh = ok running
start_run running = panic should_not_happen
start_run stopped = ok running

unfoldable pub stop_run : StaticRun → Result StaticRun
stop_run fresh = panic should_not_happen
stop_run running = ok stopped
stop_run stopped = panic should_not_happen

-- `pa.source.(*sourceStatic).start()`
unfoldable pub static_start : PathState → Result PathState
unfolding start_run
static_start p = elim p.source [
  | some (static_source r) ↦ do
    r' ← start_run r
    ok (emit static_started (record p { source = some (static_source r') }))
  | _ ↦ panic wrong_source
]

-- `pa.source.(*sourceStatic).stop()`
unfoldable pub static_stop : PathState → Result PathState
unfolding stop_run
static_stop p = elim p.source [
  | some (static_source r) ↦ do
    r' ← stop_run r
    ok (emit static_stopped (record p { source = some (static_source r') }))
  | _ ↦ panic wrong_source
]

-- `go pa.source.(*sourceStatic).reloadConf(newConf)`: it waits on the source's context, which is nil
-- until the first start; after a stop it returns at once.
unfoldable pub static_reload_conf : PathState → Result PathState
static_reload_conf p = elim p.source [
  | some (static_source fresh) ↦ panic nil_context
  | some (static_source running) ↦ ok (emit static_reload p)
  | some (static_source stopped) ↦ ok p
  | _ ↦ panic wrong_source
]

-- `pa.source.(publisher).close()`
unfoldable pub publisher_close : PathState → Result PathState
publisher_close p = elim p.source [
  | some (publisher a) ↦ ok (emit (publisher_closed a) p)
  | _ ↦ panic wrong_source
]

unfoldable pub do_reader_remove : ℕ → PathState → PathState
do_reader_remove r p = record p { readers = remove_key r p.readers }

-- The loop over `pa.readers` that removes and closes each.
unfoldable pub close_readers : List ℕ → PathState → PathState
unfolding do_reader_remove
close_readers [] p = p
close_readers (r ∷ rs) p = close_readers rs (emit (reader_closed r) (do_reader_remove r p))

unfoldable pub close_ready_cmd : PathState → PathState
close_ready_cmd p =
    if p.ready_cmd then emit ready_cmd_closed (record p { ready_cmd = false }) else p

unfoldable pub source_set_not_ready : PathState → PathState
unfolding close_ready_cmd
source_set_not_ready p =
    let q = emit source_not_ready p in
    record (close_ready_cmd (close_readers q.readers q)) { stream = none }

-- `none` is the error of `newStream`.
unfoldable pub source_set_ready : Medias → PathState → Option PathState
source_set_ready m p =
    let q = record p { stream = some m.id } in
    let r =
      if str_eq q.conf.run_on_ready ""
      then q
      else emit ready_cmd_started (record q { ready_cmd = true }) in
    if m.supported then some (emit source_ready r) else none
