-- ===== src/Core/Path/Requests/Answered.antt =====
-- Each event answers or puts on hold just the requests that it brings.
use text.Mathlib.Text.{◌==◌ as str_eq}
use rtc_simple_server.Base.{
  ℕ, Bool, true, false, not, ◌&&◌, ◌≡◌, arith, none, some, if◌then◌else◌, is_some, Bool-cases, inl,
  inr, ◌⊎◌,
}
use rtc_simple_server.Conf.PathConf.{
  has_on_demand_static_source, has_on_demand_publisher, is_publisher,
}
use rtc_simple_server.Core.Path.State.{
  DescribeReq, ReaderAddReq, DescribeRes, SetupRes, Medias, Effect, describe_reply, redirect_to,
  no_one_publishing, done, publisher, publisher_reply, source_ready, ready_cmd_started, PathState,
  Result, ok, panic, ◌>>=◌, emit,
}
use rtc_simple_server.Core.Path.Source.{
  publisher_close, do_reader_remove, source_set_ready, source_set_not_ready,
}
use rtc_simple_server.Core.Path.OnDemand.{
  on_demand_publisher_stop, do_publisher_remove, on_demand_publisher_schedule_close,
  on_demand_static_source_schedule_close,
}
use rtc_simple_server.Core.Path.Handlers.{
  is_source_redirect, fallback_url, demand_static, demand_publisher, hold_describe, hold_reader,
  handle_describe, handle_publisher_remove, handle_publisher_add, handle_publisher_start,
  handle_publisher_stop, handle_reader_add, handle_reader_remove, handle_static_set_ready,
  handle_static_set_not_ready,
}
use rtc_simple_server.Core.Path.Requests.Defs.{hits, replies, Quiet, QuietResult}
use rtc_simple_server.Core.Path.Requests.Quiet.{
  quiet_then, quiet_if, Quiet-ok, quiet_refl, publisher_close-Quiet, source_set_not_ready-Quiet,
  on_demand_static_source_stop-Quiet, demand_static-Quiet, demand_publisher-Quiet,
  do_publisher_remove-Quiet, on_demand_publisher_stop-Quiet, stop_stream-Quiet,
}
use rtc_simple_server.Core.Path.Requests.Held.{
  Counted, handle_reader_add_post-Answers, serve_on_hold-Counted, hold_describe-Counted,
  hold_reader-Counted,
}

module _ (n : ℕ) where
  -- Shut, so that it determines the result that it speaks of.
  unfoldable pub CountedResult : PathState → Result PathState → ℕ → Type 0
  CountedResult p (ok q) k = Counted n p q k
  CountedResult p (panic f) k = Unit

  -- Quiet operations, and then one that counts.
  pub quiet-Counted :
      (p : PathState) (r : Result PathState) (f : PathState → PathState) (k : ℕ)
      → QuietResult n p r
      → ((q : PathState) → Counted n q (f q) k)
      → CountedResult p (r >>= λ q. ok (f q)) k
  unfolding QuietResult CountedResult
  quiet-Counted p (ok q) f k a b = ground (arith, b q)
  quiet-Counted p (panic e) f k a b = tt

  counted_if :
      (p : PathState) (b : Bool) (x y : Result PathState) (k : ℕ)
      → CountedResult p x k
      → CountedResult p y k
      → CountedResult p (if b then x else y) k
  counted_if p true x y k a b = a
  counted_if p false x y k a b = b

  pub Counted-ok : (p q : PathState) (k : ℕ) → Counted n p q k → CountedResult p (ok q) k
  unfolding CountedResult
  Counted-ok p q k h = h

  -- A request that needs a stream, on a path that has none.
  demand-Counted :
      (hold : PathState → PathState) (k : ℕ) (other : Result PathState) (p : PathState)
      → ((q : PathState) → Counted n q (hold q) k)
      → CountedResult p other k
      → CountedResult p
          (if has_on_demand_static_source p.conf
            then (demand_static p >>= λ q. ok (hold q))
            else if has_on_demand_publisher p.conf
            then ok (hold (demand_publisher p))
            else other)
          k
  demand-Counted hold k other p h o =
      counted_if p _ (demand_static p >>= λ q. ok (hold q)) _ k
        (quiet-Counted p (demand_static p) hold k (demand_static-Quiet n p) h)
        (counted_if p _ (ok (hold (demand_publisher p))) _ k
          (quiet-Counted p (ok (demand_publisher p)) hold k
            (Quiet-ok n p _ (demand_publisher-Quiet n p)) h)
          o)

  emit-Counted : (e : Effect) (p : PathState) → CountedResult p (ok (emit e p)) (replies n e)
  unfolding CountedResult
  emit-Counted e p = ground arith

  unanswered-Counted :
      (r : DescribeReq) (p : PathState)
      → CountedResult p
          (if not (str_eq p.conf.fallback "")
            then ok
                (emit (describe_reply r.res (redirect_to (fallback_url r.url p.conf.fallback))) p)
            else ok (emit (describe_reply r.res (DescribeRes.failed no_one_publishing)) p))
          (hits n r.res)
  unanswered-Counted r p = counted_if p _ _ _ _ (emit-Counted _ p) (emit-Counted _ p)

  pub handle_describe-Counted :
      (r : DescribeReq) (p : PathState) → CountedResult p (handle_describe r p) (hits n r.res)
  unfolding handle_describe
  handle_describe-Counted r p = elim (Bool-cases (is_source_redirect p.source)) [
    | inl h ↦ rw h (emit-Counted _ p)
    | inr h ↦ elim (Bool-cases (is_some p.stream)) [
      | inl s ↦ rw (h, s) (emit-Counted _ p)
      | inr s ↦
          rw (h, s)
            (demand-Counted (hold_describe r) (hits n r.res) _ p (hold_describe-Counted n r)
              (unanswered-Counted r p))
    ]
  ]

  pub handle_reader_add-Counted :
      (r : ReaderAddReq) (p : PathState) → CountedResult p (handle_reader_add r p) (hits n r.res)
  unfolding handle_reader_add
  handle_reader_add-Counted r p =
      counted_if p _ _ _ _ (Counted-ok p _ _ (ground (arith, handle_reader_add_post-Answers n r p)))
        (demand-Counted (hold_reader r) _ _ p (hold_reader-Counted n r)
          (Counted-ok p _ _ (ground arith)))

  pub handle_publisher_remove-Counted :
      (author res : ℕ) (p : PathState)
      → CountedResult p (handle_publisher_remove author res p) (hits n res)
  unfolding handle_publisher_remove
  handle_publisher_remove-Counted author res p =
      quiet-Counted p _ (emit (done res)) _
        (quiet_if n p _ _ _ (do_publisher_remove-Quiet n p) (quiet_refl n p)) (λ q. ground arith)

  override-Quiet :
      (p : PathState)
      → QuietResult n p
          (if is_some p.source then (publisher_close p >>= do_publisher_remove) else ok p)
  override-Quiet p =
      quiet_if n p _ _ _
        (quiet_then n p (publisher_close p) do_publisher_remove (publisher_close-Quiet n p)
          (do_publisher_remove-Quiet n))
        (quiet_refl n p)

  pub handle_publisher_add-Counted :
      (author res : ℕ) (p : PathState)
      → CountedResult p (handle_publisher_add author res p) (hits n res)
  unfolding handle_publisher_add
  handle_publisher_add-Counted author res p = elim (Bool-cases (is_publisher p.conf)) [
    | inl h ↦ elim (Bool-cases (is_some p.source && p.conf.disable_publisher_override)) [
      | inl d ↦ rw (h, d) (emit-Counted _ p)
      | inr d ↦
          rw (h, d)
            (quiet-Counted p _
              (λ q.
                emit (publisher_reply res SetupRes.path)
                  (record q { source = some (publisher author) }))
              _ (override-Quiet p) (λ q. ground arith))
    ]
    | inr h ↦ rw h (emit-Counted _ p)
  ]

  pub handle_publisher_stop-Counted :
      (author res : ℕ) (p : PathState)
      → CountedResult p (handle_publisher_stop author res p) (hits n res)
  unfolding handle_publisher_stop
  handle_publisher_stop-Counted author res p =
      quiet-Counted p _ (emit (done res)) _
        (quiet_if n p _ _ _
          (stop_stream-Quiet n on_demand_publisher_stop p (on_demand_publisher_stop-Quiet n p))
          (quiet_refl n p))
        (λ q. ground arith)

  source_set_ready-Quiet :
      (m : Medias) (p : PathState)
      → (source_set_ready m p ≡ none)
        ⊎ ((q : PathState) × (source_set_ready m p ≡ some q) × Quiet n p q)
  unfolding source_set_ready
  source_set_ready-Quiet m p = elim (Bool-cases m.supported) [
    | inl h ↦ elim (Bool-cases (str_eq p.conf.run_on_ready "")) [
      | inl c ↦ inr (emit source_ready (record p { stream = some m.id }), rw (h, c), ground arith)
      | inr c ↦ inr (
        emit source_ready
            (emit ready_cmd_started (record p { stream = some m.id; ready_cmd = true })),
        rw (h, c),
        ground arith,
      )
    ]
    | inr h ↦ inl (rw h)
  ]

  pub handle_publisher_start-Counted :
      (author : ℕ) (m : Medias) (res : ℕ) (p : PathState)
      → Counted n p (handle_publisher_start author m res p) (hits n res)
  unfolding handle_publisher_start on_demand_publisher_schedule_close
  handle_publisher_start-Counted author m res p = elim (source_set_ready-Quiet m p) [
    | inl e ↦ rw (e, handle_publisher_start) (ground arith)
    | inr (q, e, h) ↦
        let r = on_demand_publisher_schedule_close (record q { publisher_ready_timer = false }) in
        rw (e, handle_publisher_start) (ground (arith, h, serve_on_hold-Counted n r))
  ]

  pub handle_static_set_ready-Counted :
      (m : Medias) (res : ℕ) (p : PathState)
      → Counted n p (handle_static_set_ready m res p) (hits n res)
  unfolding handle_static_set_ready on_demand_static_source_schedule_close
  handle_static_set_ready-Counted m res p = elim (source_set_ready-Quiet m p) [
    | inl e ↦ rw (e, handle_static_set_ready) (ground arith)
    | inr (q, e, h) ↦
        let r = on_demand_static_source_schedule_close (record q { static_ready_timer = false }) in
        rw (e, handle_static_set_ready) (ground (arith, h, serve_on_hold-Counted n r))
  ]

  pub Counted-quiet :
      (p q : PathState) (r : Result PathState) (k : ℕ)
      → Counted n p q k
      → QuietResult n q r
      → CountedResult p r k
  unfolding QuietResult CountedResult
  Counted-quiet p q (ok t) k a b = ground (arith, a, b)
  Counted-quiet p q (panic e) k a b = tt

  pub handle_static_set_not_ready-Counted :
      (res : ℕ) (p : PathState) → CountedResult p (handle_static_set_not_ready res p) (hits n res)
  unfolding handle_static_set_not_ready
  handle_static_set_not_ready-Counted res p =
      let q = emit (done res) (source_set_not_ready p) in
      Counted-quiet p q _ _ (ground (arith, source_set_not_ready-Quiet n p))
        (quiet_if n q _ _ _ (on_demand_static_source_stop-Quiet n q) (quiet_refl n q))

  pub handle_reader_remove-Counted :
      (author res : ℕ) (p : PathState)
      → Counted n p (handle_reader_remove author res p) (hits n res)
  unfolding handle_reader_remove on_demand_static_source_schedule_close
      on_demand_publisher_schedule_close do_reader_remove
  handle_reader_remove-Counted author res p = ground arith
