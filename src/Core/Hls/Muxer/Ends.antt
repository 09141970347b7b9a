-- ===== src/Core/Hls/Muxer/Ends.antt =====
-- How a muxer of internal/core/hls_muxer.go that is closed comes to its end, and when it does not.
use rtc_simple_server.Base.{
  if◌then◌else◌, ◌≡◌, Bool, true, false, not, ◌&&◌, ◌||◌, List, [], ◌∷◌, arith,
}
use rtc_simple_server.Core.Hls.Muxer.{
  Phase, looping, stopping, closing, destroyed, Muxer, clear_queued_requests, leave_loop,
  MuxerEvent, closed, run_ctx_done, run_request, run_list, run_inner_ready, run_inner_err,
  run_recreate_timer, run_destroyed, inner_failed, inner_started, inner_returned, inner_gave_up,
  ctx_done_step, is_stopping, inner_err_step, muxer_step, is_looping, is_closing, is_starting,
  is_offering, is_converting, is_returned, can_come, muxer_run, all_come,
}
use rtc_simple_server.Core.Hls.Muxer.Sound.{Sound}

abbrev pub is_destroyed : Phase → Bool
is_destroyed looping = false
is_destroyed stopping = false
is_destroyed closing = false
is_destroyed destroyed = true

-- `run` waits for innerErr, and `runInner` for the receiver of innerReady.
abbrev pub is_stuck : Muxer → Bool
is_stuck m = is_stopping m.phase && is_offering m.inner

muxer_step-is_stuck :
    (e : MuxerEvent) (m : Muxer)
    → can_come e m ≡ true
    → is_stuck m ≡ true
    → is_stuck (muxer_step e m) ≡ true
unfolding can_come muxer_step is_starting is_offering is_converting is_returned is_looping
    is_stopping is_closing
muxer_step-is_stuck closed m h s = ground arith
muxer_step-is_stuck run_ctx_done m h s = ground arith
muxer_step-is_stuck (run_request r) m h s = ground arith
muxer_step-is_stuck run_list m h s = ground arith
muxer_step-is_stuck run_inner_ready m h s = ground arith
muxer_step-is_stuck run_inner_err m h s = ground arith
muxer_step-is_stuck run_recreate_timer m h s = ground arith
muxer_step-is_stuck run_destroyed m h s = ground arith
muxer_step-is_stuck inner_failed m h s = ground arith
muxer_step-is_stuck inner_started m h s = ground arith
muxer_step-is_stuck inner_returned m h s = ground arith
muxer_step-is_stuck inner_gave_up m h s = ground arith

muxer_run-is_stuck :
    (es : List MuxerEvent) (m : Muxer)
    → all_come es m ≡ true
    → is_stuck m ≡ true
    → is_stuck (muxer_run es m) ≡ true
unfolding muxer_run all_come
muxer_run-is_stuck [] m h s = s
muxer_run-is_stuck (e ∷ es) m h s =
    muxer_run-is_stuck es (muxer_step e m) (ground (arith, h))
      (muxer_step-is_stuck e m (ground (arith, h)) s)

abbrev pub stop_while_starting : List MuxerEvent
stop_while_starting = run_ctx_done ∷ inner_started ∷ []

module _ (m : Muxer)
    (h : (is_looping m.phase && (m.ctx_done && (not m.is_recreating && is_starting m.inner)))
      ≡ true) where
  stop_while_starting-all_come : all_come stop_while_starting m ≡ true
  unfolding all_come can_come muxer_step ctx_done_step is_looping
  stop_while_starting-all_come = ground arith

  stop_while_starting-is_stuck : is_stuck (muxer_run stop_while_starting m) ≡ true
  unfolding muxer_run muxer_step ctx_done_step is_stopping is_offering
  stop_while_starting-is_stuck = ground arith

-- A muxer whose `run` sees the end of its context while `runInner` starts, and whose `runInner`
-- then comes to its send on innerReady, waits for ever: the two events can come, and whatever comes
-- after them, `run` stays in its wait for innerErr.
pub close_hangs :
    (m : Muxer) (es : List MuxerEvent)
    → (is_looping m.phase && (m.ctx_done && (not m.is_recreating && is_starting m.inner))) ≡ true
    → all_come es (muxer_run stop_while_starting m) ≡ true
    → (all_come stop_while_starting m ≡ true)
      × (is_stopping (muxer_run es (muxer_run stop_while_starting m)).phase ≡ true)
close_hangs m es h k =
    let stuck =
      muxer_run-is_stuck es (muxer_run stop_while_starting m) k
        (stop_while_starting-is_stuck m h) in
    (stop_while_starting-all_come m h, ground (arith, stuck))

-- What ends a muxer that is closed.
unfoldable pub ending : Muxer → List MuxerEvent
unfolding is_converting
ending m =
    if m.is_recreating
    then closed ∷ run_ctx_done ∷ run_destroyed ∷ []
    else if is_converting m.inner
    then closed ∷ run_ctx_done ∷ inner_returned ∷ run_inner_err ∷ run_destroyed ∷ []
    else closed ∷ run_ctx_done ∷ run_inner_err ∷ run_destroyed ∷ []

module _ (m : Muxer) (s : Sound m)
    (h : (is_looping m.phase && (m.is_ready || m.is_recreating)) ≡ true) where
  ending-all_come : all_come (ending m) m ≡ true
  unfolding ending all_come can_come muxer_step ctx_done_step inner_err_step leave_loop
      clear_queued_requests is_starting is_offering is_converting is_returned is_looping is_stopping
      is_closing
  ending-all_come = ground (arith, s)

  ending-is_destroyed : is_destroyed (muxer_run (ending m) m).phase ≡ true
  unfolding ending muxer_run muxer_step ctx_done_step inner_err_step leave_loop
      clear_queued_requests is_converting is_looping is_stopping is_closing
  ending-is_destroyed = ground arith

  ending-requests : (muxer_run (ending m) m).requests ≡ []
  unfolding ending muxer_run muxer_step ctx_done_step inner_err_step leave_loop
      clear_queued_requests is_converting is_looping is_stopping is_closing
  ending-requests = ground arith

-- A muxer that is ready, or in a pause, can come to its end when it is closed: there are events
-- that can come one after the other and after which it is destroyed, with no request left.
pub close_ends :
    (m : Muxer)
    → Sound m
    → (is_looping m.phase && (m.is_ready || m.is_recreating)) ≡ true
    → (all_come (ending m) m ≡ true)
      × (is_destroyed (muxer_run (ending m) m).phase ≡ true)
      × ((muxer_run (ending m) m).requests ≡ [])
close_ends m s h = (ending-all_come m s h, ending-is_destroyed m s h, ending-requests m s h)
