-- ===== src/Core/Hls/Muxer/Answers.antt =====
-- How often a muxer of internal/core/hls_muxer.go answers a request.
use Prim.Native.String.{String}
use rtc_simple_server.Base.{
  ◌==◌, if◌then◌else◌, is_empty, ℕ, ◌+◌, ◌≡◌, refl, Bool, true, false, List, [], ◌∷◌, ◌++◌, arith,
}
use rtc_simple_server.Core.Hls.Muxer.{
  MuxerEffect, res, listed, Muxer, create_inner, new_muxer, answer_all, clear_queued_requests,
  leave_loop, MuxerEvent, closed, run_ctx_done, run_request, run_list, run_inner_ready,
  run_inner_err, run_recreate_timer, run_destroyed, inner_failed, inner_started, inner_returned,
  inner_gave_up, ctx_done_step, request_step, inner_ready_step, inner_err_step, muxer_step,
  muxer_run, all_come,
}
use rtc_simple_server.Core.Hls.Muxer.Sound.{Sound, new_muxer-Sound, muxer_run-Sound, is_over}

abbrev pub times : ℕ → List ℕ → ℕ
times r [] = 0
times r (q ∷ qs) = (if q == r then 1 else 0) + times r qs

-- The answers to the request r.
unfoldable pub answers : ℕ → List MuxerEffect → ℕ
answers r [] = 0
answers r (res q b ∷ sent) = (if q == r then 1 else 0) + answers r sent
answers r (listed ∷ sent) = answers r sent

abbrev pub asks : ℕ → MuxerEvent → ℕ
asks r (run_request q) = if q == r then 1 else 0
asks r e = 0

abbrev pub all_asks : ℕ → List MuxerEvent → ℕ
all_asks r [] = 0
all_asks r (e ∷ es) = asks r e + all_asks r es

-- The requests r that a muxer has answered, or holds.
unfoldable pub tally : ℕ → Muxer → ℕ
tally r m = answers r m.sent + times r m.requests

times-append : (r : ℕ) (qs ps : List ℕ) → times r (qs ++ ps) ≡ times r qs + times r ps
times-append r [] ps = omega arith
times-append r (q ∷ qs) ps = ground (arith, times-append r qs ps)

answers-answer_all :
    (r : ℕ) (b : Bool) (qs : List ℕ) (sent : List MuxerEffect)
    → answers r (answer_all b qs sent) ≡ times r qs + answers r sent
unfolding answers answer_all
answers-answer_all r b [] sent = omega arith
answers-answer_all r b (q ∷ qs) sent = ground (arith, answers-answer_all r b qs (res q b ∷ sent))

-- An event adds just the request that it brings.
pub tally-muxer_step :
    (r : ℕ) (e : MuxerEvent) (m : Muxer) → tally r (muxer_step e m) ≡ asks r e + tally r m
unfolding tally muxer_step ctx_done_step request_step inner_ready_step inner_err_step create_inner
    leave_loop clear_queued_requests answers
tally-muxer_step r closed m = omega arith
tally-muxer_step r run_ctx_done m = ground (arith, answers-answer_all r false m.requests m.sent)
tally-muxer_step r (run_request q) m = ground (arith, times-append r m.requests (q ∷ []))
tally-muxer_step r run_list m = omega arith
tally-muxer_step r run_inner_ready m = ground (arith, answers-answer_all r true m.requests m.sent)
tally-muxer_step r run_inner_err m = ground (arith, answers-answer_all r false m.requests m.sent)
tally-muxer_step r run_recreate_timer m = omega arith
tally-muxer_step r run_destroyed m = omega arith
tally-muxer_step r inner_failed m = omega arith
tally-muxer_step r inner_started m = omega arith
tally-muxer_step r inner_returned m = omega arith
tally-muxer_step r inner_gave_up m = omega arith

tally-muxer_run :
    (r : ℕ) (es : List MuxerEvent) (m : Muxer)
    → tally r (muxer_run es m) ≡ all_asks r es + tally r m
unfolding muxer_run
tally-muxer_run r [] m = omega arith
tally-muxer_run r (e ∷ es) m =
    omega (arith, tally-muxer_run r es (muxer_step e m), tally-muxer_step r e m)

pub Sound-over : (r : ℕ) (m : Muxer) → Sound m → is_over m.phase ≡ true → times r m.requests ≡ 0
Sound-over r m s h = empty-times m.requests (ground (arith, h, s.queue))
  where
    empty-times : (qs : List ℕ) → is_empty qs ≡ true → times r qs ≡ 0
    empty-times [] h = refl
    empty-times (q ∷ qs) h = cc h

-- Whatever comes to a muxer, each request was answered as often as it was brought, less the times
-- that it waits in the queue; and once `run` has left its loop, it was answered as often as it was
-- brought.
pub muxer_answers :
    (n : String) (b c : Bool) (es : List MuxerEvent) (r : ℕ)
    → all_come es (new_muxer n b c) ≡ true
    → let m = muxer_run es (new_muxer n b c) in
      answers r m.sent + (if is_over m.phase then 0 else times r m.requests) ≡ all_asks r es
unfolding tally new_muxer answers
muxer_answers n b c es r h =
    let m = muxer_run es (new_muxer n b c) in
    let s = muxer_run-Sound es (new_muxer n b c) h (new_muxer-Sound n b c) in
    let t = tally-muxer_run r es (new_muxer n b c) in ground (arith, t, Sound-over r m s)
