-- ===== src/Core/Path/Requests/Quiet.antt =====
-- The operations on the source of a path answer no request.
use rtc_simple_server.Base.{
  ℕ, zero, suc, Bool, true, false, not, ◌&&◌, none, List, [], ◌∷◌, arith, if◌then◌else◌,
}
use rtc_simple_server.Conf.PathConf.{has_on_demand_publisher}
use rtc_simple_server.Core.Path.State.{
  is_initial, Fault, source_not_ready, reader_closed, PathState, Result, ok, panic, ◌>>=◌, emit,
}
use rtc_simple_server.Core.Path.Source.{
  start_run, stop_run, static_start, static_stop, static_reload_conf, publisher_close,
  do_reader_remove, close_readers, close_ready_cmd, source_set_not_ready,
}
use rtc_simple_server.Core.Path.OnDemand.{
  on_demand_static_source_start, on_demand_static_source_stop, on_demand_publisher_start,
  close_demand_cmd, reset_publisher, publisher_stop_with, publisher_remove_depth,
  do_publisher_remove, on_demand_publisher_stop,
}
use rtc_simple_server.Core.Path.Handlers.{demand_static, demand_publisher}
use rtc_simple_server.Core.Path.Run.{source_close}
use rtc_simple_server.Core.Path.Requests.Defs.{Quiet, QuietResult}

module _ (n : ℕ) where
  Quiet-trans : {p q r : PathState} → Quiet n p q → Quiet n q r → Quiet n p r
  Quiet-trans a b = ground (arith, a, b)

  pub Quiet-after :
      (p q : PathState) (r : Result PathState) → Quiet n p q → QuietResult n q r → QuietResult n p r
  unfolding QuietResult
  Quiet-after p q (ok t) a b = Quiet-trans a b
  Quiet-after p q (panic e) a b = tt

  pub quiet_then :
      (p : PathState) (r : Result PathState) (f : PathState → Result PathState)
      → QuietResult n p r
      → ((q : PathState) → QuietResult n q (f q))
      → QuietResult n p (r >>= f)
  unfolding QuietResult
  quiet_then p (ok q) f a b = Quiet-after p q (f q) a (b q)
  quiet_then p (panic e) f a b = tt

  pub static_reload_conf-Quiet : (p : PathState) → QuietResult n p (static_reload_conf p)
  unfolding QuietResult static_reload_conf
  static_reload_conf-Quiet p = ground arith

  pub publisher_close-Quiet : (p : PathState) → QuietResult n p (publisher_close p)
  unfolding QuietResult publisher_close
  publisher_close-Quiet p = ground arith

  close_readers-Quiet : (rs : List ℕ) (p : PathState) → Quiet n p (close_readers rs p)
  unfolding close_readers
  close_readers-Quiet [] p = ground arith
  close_readers-Quiet (r ∷ rs) p =
      ground (arith, close_readers-Quiet rs (emit (reader_closed r) (do_reader_remove r p)))

  pub source_set_not_ready-Quiet : (p : PathState) → Quiet n p (source_set_not_ready p)
  unfolding source_set_not_ready close_ready_cmd
  source_set_not_ready-Quiet p =
      ground (arith, close_readers-Quiet p.readers (emit source_not_ready p))

  pub close_demand_cmd-Quiet : (p : PathState) → Quiet n p (close_demand_cmd p)
  unfolding close_demand_cmd
  close_demand_cmd-Quiet p = ground arith

  pub source_close-Quiet : (p : PathState) → QuietResult n p (source_close p)
  unfolding QuietResult source_close static_stop stop_run
  source_close-Quiet p = ground arith

  pub on_demand_static_source_stop-Quiet :
      (p : PathState) → QuietResult n p (on_demand_static_source_stop p)
  unfolding QuietResult on_demand_static_source_stop static_stop stop_run
  on_demand_static_source_stop-Quiet p = ground arith

  pub demand_static-Quiet : (p : PathState) → QuietResult n p (demand_static p)
  unfolding QuietResult demand_static on_demand_static_source_start static_start start_run
  demand_static-Quiet p = ground arith

  pub demand_publisher-Quiet : (p : PathState) → Quiet n p (demand_publisher p)
  unfolding demand_publisher on_demand_publisher_start
  demand_publisher-Quiet p = ground arith

  reset_publisher-Quiet : (p : PathState) → Quiet n p (reset_publisher p)
  unfolding reset_publisher
  reset_publisher-Quiet p = ground arith

  pub Quiet-ok : (p q : PathState) → Quiet n p q → QuietResult n p (ok q)
  unfolding QuietResult
  Quiet-ok p q h = h

  quiet_panic : (p : PathState) (f : Fault) → QuietResult n p (panic f)
  unfolding QuietResult
  quiet_panic p f = tt

  pub quiet_refl : (p : PathState) → QuietResult n p (ok p)
  unfolding QuietResult
  quiet_refl p = ground arith

  pub quiet_if :
      (p : PathState) (b : Bool) (x y : Result PathState)
      → QuietResult n p x
      → QuietResult n p y
      → QuietResult n p (if b then x else y)
  quiet_if p true x y a b = a
  quiet_if p false x y a b = b

  -- The two functions that call each other, over any quiet call back.
  publisher_stop_with-Quiet :
      (remove : PathState → Result PathState)
      → ((p : PathState) → QuietResult n p (remove p))
      → (p : PathState) → QuietResult n p (publisher_stop_with remove p)
  unfolding publisher_stop_with
  publisher_stop_with-Quiet remove h p =
      let q = reset_publisher p in
      quiet_then p _ _
        (Quiet-after p q _ (reset_publisher-Quiet p)
          (quiet_if q _ _ _ (quiet_then q _ remove (publisher_close-Quiet q) h) (quiet_refl q)))
        (λ r. Quiet-ok r _ (close_demand_cmd-Quiet r))

  pub stop_stream-Quiet :
      (stop : PathState → Result PathState) (p : PathState)
      → QuietResult n p (stop p)
      → QuietResult n p (
          if has_on_demand_publisher p.conf && not (is_initial p.publisher_state)
          then stop p
          else ok (source_set_not_ready p))
  stop_stream-Quiet stop p h = quiet_if p _ _ _ h (Quiet-ok p _ (source_set_not_ready-Quiet p))

  publisher_remove_depth-Quiet :
      (d : ℕ) (p : PathState) → QuietResult n p (publisher_remove_depth d p)
  unfolding publisher_remove_depth
  publisher_remove_depth-Quiet zero p = quiet_panic p _
  publisher_remove_depth-Quiet (suc d) p =
      quiet_then p _ _
        (quiet_if p _ _ _
          (stop_stream-Quiet (publisher_stop_with (publisher_remove_depth d)) p
            (publisher_stop_with-Quiet _ (publisher_remove_depth-Quiet d) p))
          (quiet_refl p))
        (λ q. Quiet-ok q (record q { source = none }) (ground arith))

  pub do_publisher_remove-Quiet : (p : PathState) → QuietResult n p (do_publisher_remove p)
  unfolding do_publisher_remove
  do_publisher_remove-Quiet = publisher_remove_depth-Quiet 2

  pub on_demand_publisher_stop-Quiet :
      (p : PathState) → QuietResult n p (on_demand_publisher_stop p)
  unfolding on_demand_publisher_stop
  on_demand_publisher_stop-Quiet =
      publisher_stop_with-Quiet (publisher_remove_depth 1) (publisher_remove_depth-Quiet 1)
