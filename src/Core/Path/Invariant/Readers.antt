-- ===== src/Core/Path/Invariant/Readers.antt =====
-- Readers come, go, or wait for a stream.
use text.Mathlib.Text.{◌==◌ as str_eq}
use rtc_simple_server.Base.{
  ℕ, true, false, not, ◌||◌, List, [], ◌∷◌, ◌≡◌, refl, arith, is_some, is_empty-add_key, Bool-cases,
  inl, inr, if◌then◌else◌, remove_key_nil,
}
use rtc_simple_server.Conf.PathConf.{has_on_demand_static_source, has_on_demand_publisher}
use rtc_simple_server.Core.Path.State.{
  is_waiting, describe_reply, redirect_to, reader_reply, no_one_publishing, SetupRes, DescribeReq,
  ReaderAddReq, DescribeRes, Effect, PathState, Result, ok, ◌>>=◌, emit,
}
use rtc_simple_server.Core.Path.Source.{do_reader_remove}
use rtc_simple_server.Core.Path.OnDemand.{
  on_demand_static_source_schedule_close, on_demand_publisher_schedule_close,
  handle_reader_add_post, add_readers, serve_on_hold,
}
use rtc_simple_server.Core.Path.Handlers.{
  demand_static, demand_publisher, hold_describe, hold_reader, fallback_url, is_source_redirect,
  handle_describe, handle_reader_add, handle_reader_remove,
}
use rtc_simple_server.Core.Path.Invariant.Defs.{Inv, Safe}
use rtc_simple_server.Core.Path.Invariant.Updates.{answer_describes_update}
use rtc_simple_server.Core.Path.Invariant.OnDemand.{demand_static-Inv, demand_publisher-Inv}

-- The path without its requests on hold.
abbrev pub released : PathState → PathState
released p = record p { describe_on_hold = []; reader_on_hold = [] }

handle_reader_add_post-Inv :
    (req : ReaderAddReq) (p : PathState)
    → Inv (released p)
    → is_some p.stream ≡ true
    → Inv (released (handle_reader_add_post req p))
      × (is_some (handle_reader_add_post req p).stream ≡ true)
unfolding handle_reader_add_post
handle_reader_add_post-Inv req p v s = ground (arith, is_empty-add_key req.author p.readers)

add_readers-Inv :
    (reqs : List ReaderAddReq) (p : PathState)
    → Inv (released p)
    → is_some p.stream ≡ true
    → Inv (released (add_readers reqs p))
unfolding add_readers
add_readers-Inv [] p v s = v
add_readers-Inv (req ∷ reqs) p v s =
    let (w, t) = handle_reader_add_post-Inv req p v s in
    add_readers-Inv reqs (handle_reader_add_post req p) w t

add_readers_holds :
    (reqs : List ReaderAddReq) (p : PathState)
    → (add_readers reqs p).describe_on_hold ≡ p.describe_on_hold
unfolding add_readers handle_reader_add_post
add_readers_holds [] p = refl
add_readers_holds (req ∷ reqs) p =
    ground (arith, add_readers_holds reqs (handle_reader_add_post req p))

pub serve_on_hold-Inv :
    (p : PathState) → Inv (released p) → is_some p.stream ≡ true → Inv (serve_on_hold p)
unfolding serve_on_hold
serve_on_hold-Inv p v s =
    let (t, e) = answer_describes_update (DescribeRes.stream p.stream) p.describe_on_hold p in
    let q = record p { describe_on_hold = []; sent = t } in
    let w : Inv (released (add_readers p.reader_on_hold q)) =
      add_readers-Inv p.reader_on_hold q (ground (arith, v)) s in
    let h : (add_readers p.reader_on_hold q).describe_on_hold ≡ [] =
      add_readers_holds p.reader_on_hold q in
    rw (e, serve_on_hold) (ground (arith, w, h))

-- A request put on hold of a path that waits.
hold_describe-Inv :
    (req : DescribeReq) (p : PathState)
    → Inv p
    → (is_waiting p.static_state || is_waiting p.publisher_state) ≡ true
    → Inv (hold_describe req p)
unfolding hold_describe
hold_describe-Inv req p v w = ground arith

hold_reader-Inv :
    (req : ReaderAddReq) (p : PathState)
    → Inv p
    → (is_waiting p.static_state || is_waiting p.publisher_state) ≡ true
    → Inv (hold_reader req p)
unfolding hold_reader
hold_reader-Inv req p v w = ground arith

pub emit-Inv : (e : Effect) (p : PathState) → Inv p → Inv (emit e p)
emit-Inv e p v = ground arith

-- What both kinds of requests come to on a path with no stream: the source is started and the request
-- put on hold, or it is answered at once.
demand-Inv :
    (hold : PathState → PathState) (other : Result PathState) (p : PathState)
    → ((q : PathState)
        → Inv q
        → (is_waiting q.static_state || is_waiting q.publisher_state) ≡ true
        → Inv (hold q))
    → Safe other
    → Inv p
    → is_some p.stream ≡ false
    → Safe (
        if has_on_demand_static_source p.conf
        then (demand_static p >>= λ q. ok (hold q))
        else if has_on_demand_publisher p.conf
        then ok (hold (demand_publisher p))
        else other)
demand-Inv hold other p keep o v n = elim (Bool-cases (has_on_demand_static_source p.conf)) [
  | inl d ↦ let (q, e, w, b) = demand_static-Inv p v d n in rw (d, e) (keep q w b)
  | inr d ↦ elim (Bool-cases (has_on_demand_publisher p.conf)) [
    | inl c ↦ let (w, b) = demand_publisher-Inv p v c n in rw (d, c) (keep _ w b)
    | inr c ↦ rw (d, c) o
  ]
]

unanswered :
    (req : DescribeReq) (p : PathState)
    → Inv p
    → Safe (
        if not (str_eq p.conf.fallback "")
        then ok
            (emit (describe_reply req.res (redirect_to (fallback_url req.url p.conf.fallback))) p)
        else ok (emit (describe_reply req.res (DescribeRes.failed no_one_publishing)) p))
unanswered req p v = ground arith

pub handle_describe-Inv : (req : DescribeReq) (p : PathState) → Inv p → Safe (handle_describe req p)
unfolding handle_describe
handle_describe-Inv req p v = elim (Bool-cases (is_source_redirect p.source)) [
  | inl r ↦ rw r (emit-Inv _ p v)
  | inr r ↦ elim (Bool-cases (is_some p.stream)) [
    | inl s ↦ rw (r, s) (emit-Inv _ p v)
    | inr n ↦
        rw (r, n)
          (demand-Inv (hold_describe req) _ p (hold_describe-Inv req) (unanswered req p v) v n)
  ]
]

handle_reader_add_post_live :
    (req : ReaderAddReq) (p : PathState)
    → Inv p
    → is_some p.stream ≡ true
    → Inv (handle_reader_add_post req p)
unfolding handle_reader_add_post
handle_reader_add_post_live req p v s = ground (arith, is_empty-add_key req.author p.readers)

pub handle_reader_add-Inv :
    (req : ReaderAddReq) (p : PathState) → Inv p → Safe (handle_reader_add req p)
unfolding handle_reader_add
handle_reader_add-Inv req p v = elim (Bool-cases (is_some p.stream)) [
  | inl s ↦ rw s (handle_reader_add_post_live req p v s)
  | inr n ↦ rw n (
      demand-Inv (hold_reader req)
        (ok (emit (reader_reply req.res (SetupRes.failed no_one_publishing)) p)) p
        (hold_reader-Inv req) (emit-Inv _ p v) v n)
]

pub handle_reader_remove-Inv :
    (author res : ℕ) (p : PathState) → Inv p → Inv (handle_reader_remove author res p)
unfolding handle_reader_remove on_demand_static_source_schedule_close
    on_demand_publisher_schedule_close do_reader_remove
handle_reader_remove-Inv author res p v = ground (arith, remove_key_nil author p.readers)
