-- ===== src/Core/Path/Tests.antt =====
-- The path at work: a camera that is read on demand, and a path with a publisher on demand.
use rtc_simple_server.Base.{
  contains, add_key, is_some, is_empty, contains, add_key, ◌+◌, ◌≡◌, refl, ◌⊎◌, true, false, not,
  ◌||◌, none,
}
use rtc_simple_server.Conf.PathConf.{
  PathConf, has_static_source, has_on_demand_static_source, has_on_demand_publisher, is_redirect,
  is_publisher,
}
use rtc_simple_server.Conf.Samples.{path_conf}
use rtc_simple_server.Core.Path.State.{
  DescribeReq, ReaderAddReq, Medias, PathState, Result, ok, panic,
}
use rtc_simple_server.Core.Path.Source.{
  start_run, stop_run, static_start, static_stop, source_set_ready,
}
use rtc_simple_server.Core.Path.OnDemand.{
  on_demand_static_source_start, on_demand_static_source_schedule_close, on_demand_publisher_start,
  on_demand_publisher_schedule_close, close_demand_cmd, handle_reader_add_post, answer_describes,
  answer_readers, add_readers, serve_on_hold,
}
use rtc_simple_server.Core.Path.Handlers.{
  demand_static, demand_publisher, hold_describe, handle_describe, handle_publisher_add,
  handle_publisher_start, handle_reader_add, handle_static_set_ready,
}
use rtc_simple_server.Core.Path.Run.{
  static_ready_timer_fires, new_path, start, should_close, source_close, close_init_cmd, leave,
  finish, close_if_unused, step, static_set_ready, describe, publisher_add, publisher_start,
  reader_add, terminate,
}
use rtc_simple_server.Core.Path.Invariant.Defs.{IsChecked, Inv, IsFinished, is_running}
use rtc_simple_server.Core.Path.Invariant.Steps.{start-Inv}
use rtc_simple_server.Core.Path.Invariant.Finish.{finish_ends}
use rtc_simple_server.Core.Path.Invariant.Lives.{
  Reach, step_progress, on_hold_timer, unread_static_timer, unread_publisher_timer, static_running,
  begin, next,
}
use rtc_simple_server.Core.Path.Requests.Defs.{answers, held, asks}
use rtc_simple_server.Core.Path.Requests.Once.{step-answers}
use rtc_simple_server.Core.Path.Requests.Lives.{asked, lives_answers}

abbrev camera : PathConf
camera = path_conf "rtsp://camera" true ""

abbrev on_call : PathConf
on_call = path_conf "publisher" false "publish.sh"

camera_checked : IsChecked camera
unfolding has_static_source is_redirect is_publisher has_on_demand_publisher
camera_checked = record { kinds = refl; exclusive = refl; demand = λ e. e }

on_call_checked : IsChecked on_call
unfolding has_static_source is_redirect is_publisher has_on_demand_publisher
on_call_checked = record { kinds = refl; exclusive = refl; demand = λ e. refl }

abbrev after : Result PathState → PathState
after (ok p) = p
after (panic f) = new_path camera

abbrev ask : DescribeReq
ask = record { res = 7; url = record { scheme = "rtsp"; user = ""; host = "h" } }

abbrev join : ReaderAddReq
join = record { res = 8; author = 3 }

abbrev medias : Medias
medias = record { id = 1; supported = true }

-- The camera is asked for, then streams and has a reader, or the program ends.
abbrev idle : PathState
idle = after (start (new_path camera))

abbrev waiting : PathState
waiting = after (step (describe ask) idle)

abbrev streaming : PathState
streaming = after (step (static_set_ready medias 9) waiting)

abbrev watched : PathState
watched = after (step (reader_add join) streaming)

abbrev ended : PathState
ended = after (step terminate waiting)

-- The publisher is asked for, comes and starts.
abbrev called : PathState
called = after (step (describe ask) (after (start (new_path on_call))))

abbrev added : PathState
added = after (step (publisher_add 4 9) called)

abbrev published : PathState
published = after (step (publisher_start 4 medias 10) added)

-- The lives that lead there.

idle_life : Reach camera idle
unfolding has_static_source has_on_demand_static_source has_on_demand_publisher is_redirect
    is_publisher start new_path static_start start_run
idle_life = begin refl

waiting_life : Reach camera waiting
unfolding has_static_source has_on_demand_static_source has_on_demand_publisher is_redirect
    is_publisher start new_path static_start start_run step handle_describe demand_static
    demand_publisher hold_describe on_demand_static_source_start on_demand_publisher_start
    close_if_unused should_close
waiting_life = next (describe ask) idle_life refl tt refl

streaming_life : Reach camera streaming
unfolding has_static_source has_on_demand_static_source has_on_demand_publisher is_redirect
    is_publisher start new_path static_start start_run step handle_describe demand_static
    demand_publisher hold_describe on_demand_static_source_start on_demand_publisher_start
    close_if_unused should_close handle_static_set_ready source_set_ready serve_on_hold
    answer_describes add_readers on_demand_static_source_schedule_close
streaming_life = next (static_set_ready medias 9) waiting_life refl (refl, refl) refl

watched_life : Reach camera watched
unfolding has_static_source has_on_demand_static_source has_on_demand_publisher is_redirect
    is_publisher start new_path static_start start_run step handle_describe demand_static
    demand_publisher hold_describe on_demand_static_source_start on_demand_publisher_start
    close_if_unused should_close handle_static_set_ready source_set_ready serve_on_hold
    answer_describes add_readers on_demand_static_source_schedule_close handle_reader_add
    handle_reader_add_post add_key contains
watched_life = next (reader_add join) streaming_life refl tt refl

ended_life : Reach camera ended
unfolding has_static_source has_on_demand_static_source has_on_demand_publisher is_redirect
    is_publisher start new_path static_start start_run step handle_describe demand_static
    demand_publisher hold_describe on_demand_static_source_start on_demand_publisher_start
    close_if_unused should_close finish leave close_init_cmd source_close answer_readers
    answer_describes static_stop stop_run close_demand_cmd
ended_life = next terminate waiting_life refl tt refl

called_life : Reach on_call called
unfolding has_static_source has_on_demand_static_source has_on_demand_publisher is_redirect
    is_publisher start new_path static_start start_run step handle_describe demand_static
    demand_publisher hold_describe on_demand_static_source_start on_demand_publisher_start
    close_if_unused should_close
called_life = next (describe ask) (begin refl) refl tt refl

added_life : Reach on_call added
unfolding has_static_source has_on_demand_static_source has_on_demand_publisher is_redirect
    is_publisher start new_path static_start start_run step handle_describe demand_static
    demand_publisher hold_describe on_demand_static_source_start on_demand_publisher_start
    close_if_unused should_close handle_publisher_add handle_publisher_start source_set_ready
    serve_on_hold answer_describes add_readers on_demand_publisher_schedule_close
added_life = next (publisher_add 4 9) called_life refl tt refl

published_life : Reach on_call published
unfolding has_static_source has_on_demand_static_source has_on_demand_publisher is_redirect
    is_publisher start new_path static_start start_run step handle_describe demand_static
    demand_publisher hold_describe on_demand_static_source_start on_demand_publisher_start
    close_if_unused should_close handle_publisher_add handle_publisher_start source_set_ready
    serve_on_hold answer_describes add_readers on_demand_publisher_schedule_close
published_life = next (publisher_start 4 medias 10) added_life refl (λ e. refl) refl

step_progress_example :
    (q : PathState) × (step static_ready_timer_fires waiting ≡ ok q) × (Inv q ⊎ IsFinished q)
unfolding has_static_source has_on_demand_static_source has_on_demand_publisher is_redirect
    is_publisher start new_path static_start start_run step handle_describe demand_static
    demand_publisher hold_describe on_demand_static_source_start on_demand_publisher_start
    close_if_unused should_close
step_progress_example =
    step_progress camera waiting camera_checked waiting_life refl static_ready_timer_fires refl

on_hold_timer_example :
    (waiting.stream ≡ none) × ((waiting.static_ready_timer || waiting.publisher_ready_timer) ≡ true)
unfolding has_static_source has_on_demand_static_source has_on_demand_publisher is_redirect
    is_publisher start new_path static_start start_run step handle_describe demand_static
    demand_publisher hold_describe on_demand_static_source_start on_demand_publisher_start
    close_if_unused should_close
on_hold_timer_example = on_hold_timer camera waiting camera_checked waiting_life refl refl

unread_static_timer_example : streaming.static_close_timer ≡ is_empty streaming.readers
unfolding has_static_source has_on_demand_static_source has_on_demand_publisher is_redirect
    is_publisher start new_path static_start start_run step handle_describe demand_static
    demand_publisher hold_describe on_demand_static_source_start on_demand_publisher_start
    close_if_unused should_close handle_static_set_ready source_set_ready serve_on_hold
    answer_describes add_readers on_demand_static_source_schedule_close
unread_static_timer_example =
    unread_static_timer camera streaming camera_checked streaming_life refl refl refl

unread_publisher_timer_example : published.publisher_close_timer ≡ is_empty published.readers
unfolding has_static_source has_on_demand_static_source has_on_demand_publisher is_redirect
    is_publisher start new_path static_start start_run step handle_describe demand_static
    demand_publisher hold_describe on_demand_static_source_start on_demand_publisher_start
    close_if_unused should_close handle_publisher_add handle_publisher_start source_set_ready
    serve_on_hold answer_describes add_readers on_demand_publisher_schedule_close
unread_publisher_timer_example =
    unread_publisher_timer on_call published on_call_checked published_life refl refl refl

static_running_example :
    is_running waiting.source
    ≡ (not waiting.conf.source_on_demand || waiting.static_ready_timer || is_some waiting.stream)
unfolding has_static_source has_on_demand_static_source has_on_demand_publisher is_redirect
    is_publisher start new_path static_start start_run step handle_describe demand_static
    demand_publisher hold_describe on_demand_static_source_start on_demand_publisher_start
    close_if_unused should_close
static_running_example = static_running camera waiting camera_checked waiting_life refl refl

idle-Inv : Inv idle
unfolding has_static_source has_on_demand_static_source has_on_demand_publisher is_redirect
    is_publisher start new_path static_start start_run
idle-Inv = start-Inv camera camera_checked

finish_ends_example : (q : PathState) × (finish idle ≡ ok q) × IsFinished q
finish_ends_example = finish_ends idle idle-Inv

step-answers_example :
    answers 7 waiting.sent + held 7 waiting
    ≡ answers 7 idle.sent + held 7 idle + asks 7 (describe ask)
unfolding has_static_source has_on_demand_static_source has_on_demand_publisher is_redirect
    is_publisher start new_path static_start start_run step handle_describe demand_static
    demand_publisher hold_describe on_demand_static_source_start on_demand_publisher_start
    close_if_unused should_close
step-answers_example = step-answers 7 (describe ask) idle waiting refl refl

lives_answers_example : answers 7 waiting.sent + held 7 waiting ≡ asked 7 waiting_life
lives_answers_example = lives_answers 7 camera waiting_life
