-- ===== src/Core/Hls/Muxer/Sound.antt =====
-- The variables of a muxer of internal/core/hls_muxer.go agree.
use Prim.Native.String.{String}
use rtc_simple_server.Base.{
  is_empty, ◌≡◌, refl, Bool, true, false, not, ◌&&◌, ◌||◌, List, [], ◌∷◌, arith,
}
use rtc_simple_server.Core.Hls.Muxer.{
  Inner, starting, offering, converting, returned, gone, Phase, looping, stopping, closing,
  destroyed, Muxer, create_inner, new_muxer, clear_queued_requests, leave_loop, MuxerEvent, closed,
  run_ctx_done, run_request, run_list, run_inner_ready, run_inner_err, run_recreate_timer,
  run_destroyed, inner_failed, inner_started, inner_returned, inner_gave_up, ctx_done_step,
  request_step, inner_ready_step, is_stopping, inner_err_step, muxer_step, is_looping, is_closing,
  is_starting, is_offering, is_converting, is_returned, can_come, muxer_run, all_come,
}

abbrev pub is_gone : Inner → Bool
is_gone starting = false
is_gone offering = false
is_gone converting = false
is_gone returned = false
is_gone gone = true

-- `run` has left its loop.
abbrev pub is_over : Phase → Bool
is_over looping = false
is_over stopping = false
is_over closing = true
is_over destroyed = true

-- Requests wait only for the first segments; the timer is armed in a pause alone; `runInner` is
-- gone in a pause and after the loop, and nowhere else; and a muxer that
-- is ready is not in a pause, and is one from the time `runInner` converts; and past its loop,
-- its context has ended.
pub record Sound (m : Muxer) : Type 0 where
  pub queue :
      (is_empty m.requests || not (m.is_ready || (m.is_recreating || is_over m.phase))) ≡ true
  pub timer : m.recreate_timer ≡ m.is_recreating
  pub inner_gone : is_gone m.inner ≡ (m.is_recreating || is_over m.phase)
  pub ready : (m.is_ready && (is_starting m.inner || is_offering m.inner)) ≡ false
  pub pause : (m.is_ready && m.is_recreating) ≡ false
  pub ended : (is_over m.phase && not m.ctx_done) ≡ false
  pub converts : (is_converting m.inner && not m.is_ready) ≡ false

pub new_muxer-Sound : (n : String) (b c : Bool) → Sound (new_muxer n b c)
unfolding new_muxer is_starting is_offering is_converting
new_muxer-Sound n b c = record {
  queue = refl;
  timer = refl;
  inner_gone = refl;
  ready = refl;
  pause = refl;
  ended = refl;
  converts = refl;
}

pub muxer_step-Sound :
    (e : MuxerEvent) (m : Muxer) → can_come e m ≡ true → Sound m → Sound (muxer_step e m)
unfolding can_come muxer_step ctx_done_step request_step inner_ready_step inner_err_step
    create_inner leave_loop clear_queued_requests is_starting is_offering is_converting is_returned
    is_looping is_stopping is_closing
muxer_step-Sound closed m h s = ground arith
muxer_step-Sound run_ctx_done m h s = ground arith
muxer_step-Sound (run_request r) m h s = ground arith
muxer_step-Sound run_list m h s = ground arith
muxer_step-Sound run_inner_ready m h s = ground arith
muxer_step-Sound run_inner_err m h s = ground arith
muxer_step-Sound run_recreate_timer m h s = ground arith
muxer_step-Sound run_destroyed m h s = ground arith
muxer_step-Sound inner_failed m h s = ground arith
muxer_step-Sound inner_started m h s = ground arith
muxer_step-Sound inner_returned m h s = ground arith
muxer_step-Sound inner_gave_up m h s = ground arith

pub muxer_run-Sound :
    (es : List MuxerEvent) (m : Muxer) → all_come es m ≡ true → Sound m → Sound (muxer_run es m)
unfolding muxer_run all_come
muxer_run-Sound [] m h s = s
muxer_run-Sound (e ∷ es) m h s =
    muxer_run-Sound es (muxer_step e m) (ground (arith, h))
      (muxer_step-Sound e m (ground (arith, h)) s)

pub muxer_step-path_name : (e : MuxerEvent) (m : Muxer) → (muxer_step e m).path_name ≡ m.path_name
unfolding muxer_step ctx_done_step request_step inner_ready_step inner_err_step create_inner
    leave_loop clear_queued_requests
muxer_step-path_name closed m = refl
muxer_step-path_name run_ctx_done m = ground arith
muxer_step-path_name (run_request r) m = ground arith
muxer_step-path_name run_inner_err m = ground arith
muxer_step-path_name e m = refl

-- The context of a muxer does not come back.
pub muxer_step-ctx_done :
    (e : MuxerEvent) (m : Muxer) → m.ctx_done ≡ true → (muxer_step e m).ctx_done ≡ true
unfolding muxer_step ctx_done_step request_step inner_ready_step inner_err_step create_inner
    leave_loop clear_queued_requests
muxer_step-ctx_done closed m h = refl
muxer_step-ctx_done run_ctx_done m h = ground arith
muxer_step-ctx_done (run_request r) m h = ground arith
muxer_step-ctx_done run_inner_err m h = ground arith
muxer_step-ctx_done e m h = h
