-- ===== src/Core/Hls/Muxer.antt =====
-- internal/core/hls_muxer.go: the two goroutines of a muxer, `run` and `runInner`, and the requests
-- that wait for the first segments.
use Prim.Native.String.{String}
use rtc_simple_server.Base.{
  if◌then◌else◌, ℕ, Bool, true, false, not, ◌&&◌, ◌||◌, List, [], ◌∷◌, ◌++◌,
}
pub mod Sound
pub mod Answers
pub mod Ends
mod Tests

-- Where `runInner` is: `starting` up to the send on innerReady, `offering` in that send,
-- `converting` in its select, `returned` in the send on innerErr, and `gone` after it.
pub data Inner : Type 0 where
  starting offering converting returned gone : Inner

-- Where `run` is: in its select, in the wait for innerErr after the end of the context, in the call
-- of muxerClose, or past it.
pub data Phase : Type 0 where
  looping stopping closing destroyed : Phase

-- What goes out: `res true` stands for the muxer, `res false` for nil.
pub data MuxerEffect : Type 0 where
  res : ℕ → Bool → MuxerEffect
  listed : MuxerEffect

pub record Muxer : Type 0 where
  pub path_name : String
  pub always_remux : Bool
  pub has_remote_addr : Bool
  pub ctx_done : Bool
  pub requests : List ℕ
  pub is_ready : Bool
  pub is_recreating : Bool
  pub recreate_timer : Bool
  pub inner : Inner
  pub inner_ctx_done : Bool
  pub phase : Phase
  pub sent : List MuxerEffect

unfoldable pub create_inner : Muxer → Muxer
create_inner m = record m { inner = starting; inner_ctx_done = false }

unfoldable pub new_muxer : String → Bool → Bool → Muxer
unfolding create_inner
new_muxer path_name always_remux has_remote_addr = create_inner (record {
  path_name = path_name;
  always_remux = always_remux;
  has_remote_addr = has_remote_addr;
  ctx_done = false;
  requests = [];
  is_ready = false;
  is_recreating = false;
  recreate_timer = false;
  inner = gone;
  inner_ctx_done = false;
  phase = looping;
  sent = [];
})

-- The loop over `m.requests`, which answers each.
unfoldable pub answer_all : Bool → List ℕ → List MuxerEffect → List MuxerEffect
answer_all b [] sent = sent
answer_all b (r ∷ rs) sent = answer_all b rs (res r b ∷ sent)

unfoldable pub clear_queued_requests : Muxer → Muxer
unfolding answer_all
clear_queued_requests m = record m { requests = []; sent = answer_all false m.requests m.sent }

-- What follows the loop of `run`, up to the call of muxerClose.
unfoldable pub leave_loop : Muxer → Muxer
unfolding clear_queued_requests
leave_loop m = clear_queued_requests (record m { ctx_done = true; phase = closing })

-- `closed` is a call of `close`, or the end of the context of the server; `run_` events are what
-- the select of `run` receives; `inner_` events are what `runInner` does.
pub data MuxerEvent : Type 0 where
  closed : MuxerEvent
  run_ctx_done : MuxerEvent
  run_request : ℕ → MuxerEvent
  run_list : MuxerEvent
  run_inner_ready : MuxerEvent
  run_inner_err : MuxerEvent
  run_recreate_timer : MuxerEvent
  run_destroyed : MuxerEvent
  inner_failed inner_started inner_returned inner_gave_up : MuxerEvent

unfoldable pub ctx_done_step : Muxer → Muxer
unfolding leave_loop
ctx_done_step m =
    if not m.is_recreating
    then record m { inner_ctx_done = true; phase = stopping }
    else leave_loop m

unfoldable pub request_step : ℕ → Muxer → Muxer
request_step r m =
    if m.is_recreating
    then record m { sent = res r false ∷ m.sent }
    else if m.is_ready
    then record m { sent = res r true ∷ m.sent }
    else record m { requests = m.requests ++ (r ∷ []) }

unfoldable pub inner_ready_step : Muxer → Muxer
unfolding answer_all
inner_ready_step m = record m {
  is_ready = true;
  requests = [];
  sent = answer_all true m.requests m.sent;
  inner = converting;
}

unfoldable pub is_stopping : Phase → Bool
is_stopping looping = false
is_stopping stopping = true
is_stopping closing = false
is_stopping destroyed = false

-- The error of `runInner` ends `run` in its wait and without alwaysRemux, and else starts the pause.
unfoldable pub inner_err_step : Muxer → Muxer
unfolding leave_loop clear_queued_requests is_stopping
inner_err_step m =
    let q = record m { inner = gone; inner_ctx_done = true } in
    if is_stopping m.phase
    then leave_loop q
    else if m.always_remux
    then record (clear_queued_requests q) {
      is_ready = false;
      is_recreating = true;
      recreate_timer = true;
    }
    else leave_loop q

unfoldable pub muxer_step : MuxerEvent → Muxer → Muxer
unfolding ctx_done_step request_step inner_ready_step inner_err_step create_inner
muxer_step closed m = record m { ctx_done = true }
muxer_step run_ctx_done m = ctx_done_step m
muxer_step (run_request r) m = request_step r m
muxer_step run_list m = record m { sent = listed ∷ m.sent }
muxer_step run_inner_ready m = inner_ready_step m
muxer_step run_inner_err m = inner_err_step m
muxer_step run_recreate_timer m =
    create_inner (record m { is_recreating = false; recreate_timer = false })
muxer_step run_destroyed m = record m { phase = destroyed }
muxer_step inner_failed m = record m { inner = returned }
muxer_step inner_started m = record m { inner = offering }
muxer_step inner_returned m = record m { inner = returned }
muxer_step inner_gave_up m = record m { inner = returned }

unfoldable pub is_looping : Phase → Bool
is_looping looping = true
is_looping stopping = false
is_looping closing = false
is_looping destroyed = false

unfoldable pub is_closing : Phase → Bool
is_closing looping = false
is_closing stopping = false
is_closing closing = true
is_closing destroyed = false

unfoldable pub is_starting : Inner → Bool
is_starting starting = true
is_starting offering = false
is_starting converting = false
is_starting returned = false
is_starting gone = false

unfoldable pub is_offering : Inner → Bool
is_offering starting = false
is_offering offering = true
is_offering converting = false
is_offering returned = false
is_offering gone = false

unfoldable pub is_converting : Inner → Bool
is_converting starting = false
is_converting offering = false
is_converting converting = true
is_converting returned = false
is_converting gone = false

unfoldable pub is_returned : Inner → Bool
is_returned starting = false
is_returned offering = false
is_returned converting = false
is_returned returned = true
is_returned gone = false

-- Which events can come: a select receives what is sent, and a send waits for its receiver. While
-- it converts, `runInner` returns once its context has ended, and gives up for an error of its writer
-- or for want of requests.
unfoldable pub can_come : MuxerEvent → Muxer → Bool
unfolding is_looping is_stopping is_closing is_starting is_offering is_converting is_returned
can_come closed m = true
can_come run_ctx_done m = is_looping m.phase && m.ctx_done
can_come (run_request r) m = is_looping m.phase
can_come run_list m = is_looping m.phase
can_come run_inner_ready m = is_looping m.phase && is_offering m.inner
can_come run_inner_err m = (is_looping m.phase || is_stopping m.phase) && is_returned m.inner
can_come run_recreate_timer m = is_looping m.phase && m.recreate_timer
can_come run_destroyed m = is_closing m.phase
can_come inner_failed m = is_starting m.inner
can_come inner_started m = is_starting m.inner
can_come inner_returned m = is_converting m.inner && m.inner_ctx_done
can_come inner_gave_up m = is_converting m.inner

-- A run of events, the first of them at the head, and whether each of them can come in its turn.
unfoldable pub muxer_run : List MuxerEvent → Muxer → Muxer
unfolding muxer_step
muxer_run [] m = m
muxer_run (e ∷ es) m = muxer_run es (muxer_step e m)

unfoldable pub all_come : List MuxerEvent → Muxer → Bool
unfolding can_come muxer_step
all_come [] m = true
all_come (e ∷ es) m = can_come e m && all_come es (muxer_step e m)
