-- ===== src/Core/Path/Requests/Once.antt =====
-- One event, and a whole life of a path: each request that came in was answered once or is on hold.
use rtc_simple_server.Base.{
  ℕ, ◌+◌, true, false, ◌≡◌, subst, ◌∙◌, arith, if◌then◌else◌, is_some, Bool-cases, inl, inr,
}
use rtc_simple_server.Core.Path.State.{
  DescribeRes, SetupRes, path_closed, timed_out, terminated, PathState, Result, ok, panic, ◌>>=◌,
  emit,
}
use rtc_simple_server.Core.Path.Source.{source_set_not_ready}
use rtc_simple_server.Core.Path.OnDemand.{close_demand_cmd, answer_describes, fail_on_hold}
use rtc_simple_server.Core.Path.Run.{
  Event, static_ready_timer_fires, static_close_timer_fires, publisher_ready_timer_fires,
  publisher_close_timer_fires, reload_conf, static_set_ready, static_set_not_ready, describe,
  publisher_remove, publisher_add, publisher_start, publisher_stop, reader_add, reader_remove,
  api_paths_list, terminate, close_init_cmd, should_close, leave, finish, close_if_unused, step,
}
use rtc_simple_server.Core.Path.Requests.Defs.{Quiet, QuietResult, answers, held, asks}
use rtc_simple_server.Core.Path.Requests.Quiet.{
  quiet_if, quiet_refl, source_set_not_ready-Quiet, on_demand_static_source_stop-Quiet,
  on_demand_publisher_stop-Quiet, source_close-Quiet, static_reload_conf-Quiet,
  close_demand_cmd-Quiet,
}
use rtc_simple_server.Core.Path.Requests.Held.{
  load, Counted, answer_describes-Answers, answer_readers-Answers, fail_on_hold-Counted,
}
use rtc_simple_server.Core.Path.Requests.Answered.{
  CountedResult, Counted-ok, quiet-Counted, Counted-quiet, handle_describe-Counted,
  handle_reader_add-Counted, handle_publisher_remove-Counted, handle_publisher_add-Counted,
  handle_publisher_stop-Counted, handle_publisher_start-Counted, handle_static_set_ready-Counted,
  handle_static_set_not_ready-Counted, handle_reader_remove-Counted,
}

module _ (n : ℕ) where
  Settled : PathState → Result PathState → ℕ → Type 0
  Settled p (ok q) k = answers n q.sent + held n q ≡ answers n p.sent + held n p + k
  Settled p (panic f) k = Unit

  -- At the end of `run` all that is on hold is answered.
  answers-leave : (p : PathState) → answers n (leave p).sent ≡ load n p
  unfolding leave
  answers-leave p =
      let r = close_init_cmd (record (emit path_closed p) {
        static_ready_timer = false;
        static_close_timer = false;
        publisher_ready_timer = false;
        publisher_close_timer = false;
      }) in
      let s = answer_describes (DescribeRes.failed terminated) r.describe_on_hold r in
      ground (
        arith,
        answer_describes-Answers n (DescribeRes.failed terminated) r.describe_on_hold r,
        answer_readers-Answers n (SetupRes.failed terminated) s.reader_on_hold s,
      )

  -- A quiet end leaves the answers as they are.
  ended_answers :
      (p q : PathState) (r : Result PathState)
      → p.alive ≡ true
      → answers n q.sent ≡ load n p
      → QuietResult n q r
      → Settled p (r >>= λ u. ok (record (close_demand_cmd u) { alive = false })) 0
  unfolding Settled QuietResult
  ended_answers p q (ok u) a e h = ground (arith, h, close_demand_cmd-Quiet n u)
  ended_answers p q (panic f) a e h = tt

  silence : PathState → PathState
  silence p = if is_some p.stream then source_set_not_ready p else p

  answers-silence : (p : PathState) → answers n (silence p).sent ≡ answers n p.sent
  unfolding silence
  answers-silence p = ground (arith, source_set_not_ready-Quiet n p)

  finish-Settled : (p : PathState) → p.alive ≡ true → Settled p (finish p) 0
  unfolding finish silence
  finish-Settled p a =
      ended_answers p (silence (leave p)) _ a (answers-silence (leave p) ∙ answers-leave p)
        (source_close-Quiet n _)

  Settled-after :
      (p q : PathState) (r : Result PathState) (k : ℕ)
      → p.alive ≡ true
      → Counted n p q k
      → Settled q r 0
      → Settled p r k
  unfolding Settled
  Settled-after p q (ok t) k a c s = ground (arith, c, s)
  Settled-after p q (panic f) k a c s = tt

  close_if_unused-Settled :
      (p q : PathState) (k : ℕ) → p.alive ≡ true → Counted n p q k → Settled p (close_if_unused q) k
  unfolding close_if_unused
  close_if_unused-Settled p q k a c = elim (Bool-cases (should_close q)) [
    | inl h ↦ rw h (Settled-after p q (finish q) k a c (finish-Settled q (ground (arith, c))))
    | inr h ↦ rw h (unfold Settled in ground (arith, c))
  ]

  Settled-close :
      (p : PathState) (r : Result PathState) (k : ℕ)
      → p.alive ≡ true
      → CountedResult n p r k
      → Settled p (r >>= close_if_unused) k
  unfolding CountedResult Settled
  Settled-close p (ok q) k a c = close_if_unused-Settled p q k a c
  Settled-close p (panic f) k a c = tt

  Settled-open :
      (p : PathState) (r : Result PathState) (k : ℕ)
      → p.alive ≡ true
      → CountedResult n p r k
      → Settled p r k
  unfolding CountedResult Settled
  Settled-open p (ok q) k a c = ground (arith, c)
  Settled-open p (panic f) k a c = tt

  fail-Quiet :
      (p q : PathState) (r : Result PathState)
      → Quiet n p q
      → QuietResult n (fail_on_hold timed_out q) r
      → CountedResult n p r 0
  fail-Quiet p q r h k =
      Counted-quiet n p (fail_on_hold timed_out q) r 0
        (ground (arith, h, fail_on_hold-Counted n timed_out q)) k

  Quiet-settled :
      (p q : PathState) (r : Result PathState)
      → Quiet n p q
      → QuietResult n q r
      → CountedResult n p r 0
  Quiet-settled p q r h k = Counted-quiet n p q r 0 (ground (arith, h)) k

  step-Settled : (e : Event) (p : PathState) → p.alive ≡ true → Settled p (step e p) (asks n e)
  unfolding step
  step-Settled static_ready_timer_fires p a =
      let q = record p { static_ready_timer = false } in
      Settled-close p _ _ a (
        fail-Quiet p q _ (ground arith)
          (on_demand_static_source_stop-Quiet n (fail_on_hold timed_out q)))
  step-Settled static_close_timer_fires p a =
      let q = record p { static_close_timer = false } in
      Settled-close p _ _ a (
        Quiet-settled p _ _ (ground (arith, source_set_not_ready-Quiet n q))
          (on_demand_static_source_stop-Quiet n (source_set_not_ready q)))
  step-Settled publisher_ready_timer_fires p a =
      let q = record p { publisher_ready_timer = false } in
      Settled-close p _ _ a (
        fail-Quiet p q _ (ground arith)
          (on_demand_publisher_stop-Quiet n (fail_on_hold timed_out q)))
  step-Settled publisher_close_timer_fires p a =
      let q = record p { publisher_close_timer = false } in
      Settled-close p _ _ a
        (Quiet-settled p q _ (ground arith) (on_demand_publisher_stop-Quiet n q))
  step-Settled (reload_conf c) p a = Settled-open p _ _ a (
      quiet-Counted n p _ (λ q. record q { conf = c }) 0
        (quiet_if n p _ _ _ (static_reload_conf-Quiet n p) (quiet_refl n p)) (λ q. ground arith))
  step-Settled (static_set_ready m res) p a =
      Settled-open p _ _ a (Counted-ok n p _ _ (handle_static_set_ready-Counted n m res p))
  step-Settled (static_set_not_ready res) p a =
      Settled-close p _ _ a (handle_static_set_not_ready-Counted n res p)
  step-Settled (describe req) p a = Settled-close p _ _ a (handle_describe-Counted n req p)
  step-Settled (publisher_remove author res) p a =
      Settled-close p _ _ a (handle_publisher_remove-Counted n author res p)
  step-Settled (publisher_add author res) p a =
      Settled-open p _ _ a (handle_publisher_add-Counted n author res p)
  step-Settled (publisher_start author m res) p a =
      Settled-open p _ _ a (Counted-ok n p _ _ (handle_publisher_start-Counted n author m res p))
  step-Settled (publisher_stop author res) p a =
      Settled-close p _ _ a (handle_publisher_stop-Counted n author res p)
  step-Settled (reader_add req) p a = Settled-close p _ _ a (handle_reader_add-Counted n req p)
  step-Settled (reader_remove author res) p a =
      Settled-open p _ _ a (Counted-ok n p _ _ (handle_reader_remove-Counted n author res p))
  step-Settled (api_paths_list res) p a = Settled-open p _ _ a (Counted-ok n p _ _ (ground arith))
  step-Settled terminate p a = finish-Settled p a

  of_Settled :
      (p q : PathState) (r : Result PathState) (k : ℕ)
      → Settled p r k
      → r ≡ ok q
      → answers n q.sent + held n q ≡ answers n p.sent + held n p + k
  unfolding Settled
  of_Settled p q r k s e = subst (λ x. Settled p x k) e s

  -- An event that does not panic adds to the answers on a channel and the requests on hold for it, taken
  -- together, just the request that it brings: nothing is answered twice, and nothing is lost.
  pub step-answers :
      (e : Event) (p q : PathState)
      → p.alive ≡ true
      → step e p ≡ ok q
      → answers n q.sent + held n q ≡ answers n p.sent + held n p + asks n e
  step-answers e p q a s = of_Settled p q _ _ (step-Settled e p a) s
