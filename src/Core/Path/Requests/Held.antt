-- ===== src/Core/Path/Requests/Held.antt =====
-- The operations on the requests that are on hold.
use rtc_simple_server.Base.{ℕ, ◌+◌, List, [], ◌∷◌, ◌++◌, ◌≡◌, arith}
use rtc_simple_server.Core.Path.State.{
  PathError, DescribeReq, ReaderAddReq, DescribeRes, SetupRes, describe_reply, reader_reply,
  PathState, emit,
}
use rtc_simple_server.Core.Path.OnDemand.{
  handle_reader_add_post, answer_describes, answer_readers, add_readers, fail_on_hold,
  serve_on_hold,
}
use rtc_simple_server.Core.Path.Handlers.{hold_describe, hold_reader}
use rtc_simple_server.Core.Path.Requests.Defs.{answers, held_describes, held_readers, hits}

module _ (n : ℕ) where
  -- All answers and all waiting on channel `n`.
  abbrev pub load : PathState → ℕ
  load p = answers n p.sent + held_describes n p.describe_on_hold + held_readers n p.reader_on_hold

  -- Some requests were answered, and the lists on hold are as they were.
  pub record Answers (p q : PathState) (k : ℕ) : Type 0 where
    pub more_answers : answers n q.sent ≡ answers n p.sent + k
    pub kept_describes : q.describe_on_hold ≡ p.describe_on_hold
    pub kept_readers : q.reader_on_hold ≡ p.reader_on_hold
    pub kept_alive : q.alive ≡ p.alive

  pub answer_describes-Answers :
      (a : DescribeRes) (rs : List DescribeReq) (p : PathState)
      → Answers p (answer_describes a rs p) (held_describes n rs)
  unfolding answer_describes
  answer_describes-Answers a [] p = ground arith
  answer_describes-Answers a (r ∷ rs) p =
      ground (arith, answer_describes-Answers a rs (emit (describe_reply r.res a) p))

  pub answer_readers-Answers :
      (a : SetupRes) (rs : List ReaderAddReq) (p : PathState)
      → Answers p (answer_readers a rs p) (held_readers n rs)
  unfolding answer_readers
  answer_readers-Answers a [] p = ground arith
  answer_readers-Answers a (r ∷ rs) p =
      ground (arith, answer_readers-Answers a rs (emit (reader_reply r.res a) p))

  pub handle_reader_add_post-Answers :
      (r : ReaderAddReq) (p : PathState) → Answers p (handle_reader_add_post r p) (hits n r.res)
  unfolding handle_reader_add_post
  handle_reader_add_post-Answers r p = ground arith

  add_readers-Answers :
      (rs : List ReaderAddReq) (p : PathState) → Answers p (add_readers rs p) (held_readers n rs)
  unfolding add_readers
  add_readers-Answers [] p = ground arith
  add_readers-Answers (r ∷ rs) p = ground (
    arith,
    handle_reader_add_post-Answers r p,
    add_readers-Answers rs (handle_reader_add_post r p),
  )

  -- As many requests on channel `n` were answered or put on hold as `k` says.
  pub record Counted (p q : PathState) (k : ℕ) : Type 0 where
    pub counted : load q ≡ load p + k
    pub counted_alive : q.alive ≡ p.alive

  pub fail_on_hold-Counted : (e : PathError) (p : PathState) → Counted p (fail_on_hold e p) 0
  unfolding fail_on_hold
  fail_on_hold-Counted e p =
      let q = answer_describes (DescribeRes.failed e) p.describe_on_hold p in
      let r = record q { describe_on_hold = [] } in
      ground (
        arith,
        answer_describes-Answers (DescribeRes.failed e) p.describe_on_hold p,
        answer_readers-Answers (SetupRes.failed e) r.reader_on_hold r,
      )

  pub serve_on_hold-Counted : (p : PathState) → Counted p (serve_on_hold p) 0
  unfolding serve_on_hold
  serve_on_hold-Counted p =
      let q = answer_describes (DescribeRes.stream p.stream) p.describe_on_hold p in
      let r = record q { describe_on_hold = [] } in
      ground (
        arith,
        answer_describes-Answers (DescribeRes.stream p.stream) p.describe_on_hold p,
        add_readers-Answers r.reader_on_hold r,
      )

  held_describes-append :
      (xs ys : List DescribeReq)
      → held_describes n (xs ++ ys) ≡ held_describes n xs + held_describes n ys
  held_describes-append [] ys = omega arith
  held_describes-append (x ∷ xs) ys = omega (arith, held_describes-append xs ys)

  held_readers-append :
      (xs ys : List ReaderAddReq)
      → held_readers n (xs ++ ys) ≡ held_readers n xs + held_readers n ys
  held_readers-append [] ys = omega arith
  held_readers-append (x ∷ xs) ys = omega (arith, held_readers-append xs ys)

  pub hold_describe-Counted :
      (r : DescribeReq) (p : PathState) → Counted p (hold_describe r p) (hits n r.res)
  unfolding hold_describe
  hold_describe-Counted r p = ground (arith, held_describes-append p.describe_on_hold (r ∷ []))

  pub hold_reader-Counted :
      (r : ReaderAddReq) (p : PathState) → Counted p (hold_reader r p) (hits n r.res)
  unfolding hold_reader
  hold_reader-Counted r p = ground (arith, held_readers-append p.reader_on_hold (r ∷ []))
