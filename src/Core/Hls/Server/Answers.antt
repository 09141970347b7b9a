-- ===== src/Core/Hls/Server/Answers.antt =====
-- How often the HLS server of internal/core/hls_server.go and its muxers answer a request.
use Prim.Native.String.{String}
use rtc_simple_server.Base.{
  if_keeps, ◌==◌, if◌then◌else◌, ℕ, ◌+◌, ◌≡◌, refl, ap, subst, ◌∙◌, inl, inr, Bool, true, false,
  ◌&&◌, List, [], ◌∷◌, length, Option-cases, arith,
}
use rtc_simple_server.Core.Hls.Muxer.{
  Muxer, new_muxer, MuxerEvent, closed, run_request, run_destroyed, muxer_step, is_looping,
}
use rtc_simple_server.Base.Text.{lookup}
use rtc_simple_server.Base.Indexed.{get_elem?, total, total-append, total-modify}
use rtc_simple_server.Core.Hls.Server.{
  Server, new_server, on_muxer, create_muxer, refuse_request, process_request, ServerEvent,
  source_ready, source_not_ready, request, muxer_close, server_ctx_done, muxer_event,
  handle_source_not_ready, handle_request, is_place, handle_muxer_close, close_all, server_step,
  comes_to, is_own, can_process, can_request, server_can, server_run, all_can,
}
use rtc_simple_server.Core.Hls.Muxer.Sound.{Sound, is_over}
use rtc_simple_server.Base.Indexed.{total-modify_kept, total-eq}
use rtc_simple_server.Core.Hls.Muxer.Answers.{
  times, answers, asks, tally, tally-muxer_step, Sound-over,
}
use rtc_simple_server.Core.Hls.Server.Kept.{
  AllSound, server_run-AllSound, new_server-AllSound, looks_up_new,
}

abbrev pub server_asks : ℕ → ServerEvent → ℕ
server_asks r (request q name taken) = if q == r then 1 else 0
server_asks r e = 0

abbrev pub all_server_asks : ℕ → List ServerEvent → ℕ
all_server_asks r [] = 0
all_server_asks r (e ∷ es) = server_asks r e + all_server_asks r es

-- The requests r that were refused or answered, or that a muxer holds.
unfoldable pub server_tally : ℕ → Server → ℕ
unfolding total tally
server_tally r s = times r s.refused + total (tally r) s.all

-- What a muxer answered of the requests r, and the ones that wait for it while its loop runs.
unfoldable pub accounted : ℕ → Muxer → ℕ
accounted r m = answers r m.sent + (if is_over m.phase then 0 else times r m.requests)

on_muxer_tally :
    (r i : ℕ) (e : MuxerEvent) (s : Server)
    → asks r e ≡ 0
    → server_tally r (on_muxer i e s) ≡ server_tally r s
unfolding server_tally on_muxer
on_muxer_tally r i e s h = omega (
  arith,
  total-modify_kept (tally r) s.all i (muxer_step e)
      (λ (m : Muxer). omega (arith, tally-muxer_step r e m, h)),
)

create_muxer_tally :
    (r : ℕ) (name : String) (b : Bool) (s : Server)
    → server_tally r (create_muxer name b s) ≡ server_tally r s
unfolding server_tally create_muxer new_muxer tally answers
create_muxer_tally r name b s =
    omega (arith, total-append (tally r) s.all (new_muxer name s.always_remux b))

close_all-tally : (r : ℕ) (ms : List Muxer) → total (tally r) (close_all ms) ≡ total (tally r) ms
unfolding total close_all
close_all-tally r [] = refl
close_all-tally r (m ∷ ms) = omega (arith, close_all-tally r ms, tally-muxer_step r closed m)

-- A request comes to one muxer, or is refused.
process_request_tally :
    (r q : ℕ) (taken : Bool) (i : ℕ) (s : Server)
    → can_process q taken (get_elem? s.all i) ≡ true
    → server_tally r (process_request q taken i s) ≡ (if q == r then 1 else 0) + server_tally r s
unfolding server_tally process_request on_muxer refuse_request can_process comes_to
process_request_tally r q false i s c = omega arith
process_request_tally r q true i s c = elim (Option-cases (get_elem? s.all i)) [
  | inl e ↦ cc (subst (λ o. comes_to (run_request q) o ≡ true) e c)
  | inr (m, e) ↦ omega (
    arith,
    total-modify (tally r) s.all i (muxer_step (run_request q)) m (if q == r then 1 else 0) e
        (tally-muxer_step r (run_request q) m),
  )
]

refuse_request_tally :
    (r q : ℕ) (s : Server)
    → server_tally r (refuse_request q s) ≡ (if q == r then 1 else 0) + server_tally r s
unfolding server_tally refuse_request
refuse_request_tally r q s = omega arith

created_tally :
    (r q : ℕ) (name : String) (taken : Bool) (s : Server)
    → server_tally r (process_request q taken (length s.all) (create_muxer name true s))
      ≡ (if q == r then 1 else 0) + server_tally r s
unfolding can_process process_request create_muxer new_muxer is_looping
created_tally r q name true s =
    process_request_tally r q true (length s.all) (create_muxer name true s)
      (looks_up_new q s.all (new_muxer name s.always_remux true) refl)
    ∙ ap (λ n. (if q == r then 1 else 0) + n) (create_muxer_tally r name true s)
created_tally r q name false s =
    refuse_request_tally r q (create_muxer name true s)
    ∙ ap (λ n. (if q == r then 1 else 0) + n) (create_muxer_tally r name true s)

handle_request_tally :
    (r q : ℕ) (name : String) (taken : Bool) (s : Server)
    → can_request q taken (lookup name s.muxers) s ≡ true
    → server_tally r (handle_request q name taken s) ≡ (if q == r then 1 else 0) + server_tally r s
unfolding handle_request can_request
handle_request_tally r q name taken s c = elim (Option-cases (lookup name s.muxers)) [
  | inl e ↦
      rw (e, handle_request)
        (if_keeps (λ t. server_tally r t ≡ (if q == r then 1 else 0) + server_tally r s)
          s.always_remux _ _ (λ remux. refuse_request_tally r q s)
          (λ on_demand. created_tally r q name taken s))
  | inr (i, e) ↦
      rw (e, handle_request)
        (process_request_tally r q taken i s (subst (λ o. can_request q taken o s ≡ true) e c))
]

source_not_ready_tally :
    (r : ℕ) (name : String) (s : Server)
    → server_tally r (handle_source_not_ready name s) ≡ server_tally r s
unfolding handle_source_not_ready server_tally
source_not_ready_tally r name s = elim (Option-cases (lookup name s.muxers)) [
  | inl e ↦ rw (e, handle_source_not_ready)
  | inr (i, e) ↦ rw (e, handle_source_not_ready) (on_muxer_tally r i closed s refl)
]

muxer_close_tally :
    (r i : ℕ) (s : Server) → server_tally r (handle_muxer_close i s) ≡ server_tally r s
unfolding handle_muxer_close server_tally
muxer_close_tally r i s = elim (Option-cases (get_elem? s.all i)) [
  | inl e ↦ rw (e, handle_muxer_close)
  | inr (m, e) ↦
      rw (e, handle_muxer_close)
        (if_keeps (λ t. server_tally r t ≡ server_tally r s)
          (s.running && is_place (lookup m.path_name s.muxers) i) _ _
          (λ there. on_muxer_tally r i run_destroyed s refl)
          (λ other. on_muxer_tally r i run_destroyed s refl))
]

is_own-asks : (r : ℕ) (e : MuxerEvent) → is_own e ≡ true → asks r e ≡ 0
unfolding is_own
is_own-asks r (run_request q) h = cc h
is_own-asks r e h = refl

plus_zero : (a b : ℕ) → a ≡ b → a ≡ 0 + b
plus_zero a b h = omega (arith, h)

ctx_done_tally :
    (r : ℕ) (s : Server)
    → server_tally r (record s { all = close_all s.all; running = false }) ≡ server_tally r s
unfolding server_tally
ctx_done_tally r s = omega (arith, close_all-tally r s.all)

accounted-tally : (r : ℕ) (m : Muxer) → Sound m → accounted r m ≡ tally r m
unfolding accounted tally
accounted-tally r m s = ground (arith, Sound-over r m s)

server_step_tally :
    (r : ℕ) (e : ServerEvent) (s : Server)
    → server_can e s ≡ true
    → server_tally r (server_step e s) ≡ server_asks r e + server_tally r s
unfolding server_step server_can
server_step_tally r (source_ready name) s c = plus_zero _ _ (
    if_keeps (λ t. server_tally r t ≡ server_tally r s) s.always_remux _ _
      (λ remux. create_muxer_tally r name false s) (λ on_demand. refl))
server_step_tally r (source_not_ready name) s c = plus_zero _ _ (
    if_keeps (λ t. server_tally r t ≡ server_tally r s) s.always_remux _ _
      (λ remux. source_not_ready_tally r name s) (λ on_demand. refl))
server_step_tally r (request q name taken) s c =
    handle_request_tally r q name taken s (ground (arith, c))
server_step_tally r (muxer_close i) s c = plus_zero _ _ (muxer_close_tally r i s)
server_step_tally r server_ctx_done s c = plus_zero _ _ (ctx_done_tally r s)
server_step_tally r (muxer_event i e) s c =
    plus_zero _ _ (on_muxer_tally r i e s (is_own-asks r e (ground (arith, c))))

server_run_tally :
    (r : ℕ) (es : List ServerEvent) (s : Server)
    → all_can es s ≡ true
    → server_tally r (server_run es s) ≡ all_server_asks r es + server_tally r s
unfolding server_run all_can
server_run_tally r [] s c = omega arith
server_run_tally r (e ∷ es) s c = omega (
  arith,
  server_run_tally r es (server_step e s) (ground (arith, c)),
  server_step_tally r e s (ground (arith, c)),
)

-- Whatever comes to the HLS server, the requests on a channel were refused by the server, answered
-- by a muxer, or are held by one that has not left its loop, which it may never do (`close_hangs`):
-- taken together, as many as came in.
pub server_answers :
    (b : Bool) (es : List ServerEvent) (r : ℕ)
    → all_can es (new_server b) ≡ true
    → let s = server_run es (new_server b) in
      times r s.refused + total (accounted r) s.all ≡ all_server_asks r es
unfolding server_tally new_server total AllSound
server_answers b es r c =
    let s = server_run es (new_server b) in
    let l = server_run-AllSound es (new_server b) c (new_server-AllSound b) in
    omega (
      arith,
      server_run_tally r es (new_server b) c,
      total-eq (accounted r) (tally r) s.all (λ i m e. accounted-tally r m (l i m e)),
    )
