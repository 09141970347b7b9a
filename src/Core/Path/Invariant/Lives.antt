-- ===== src/Core/Path/Invariant/Lives.antt =====
-- The whole life of a path, from its start over any sequence of events.
use rtc_simple_server.Base.{
  true, false, not, ◌&&◌, ◌||◌, Option, none, some, ◌≡◌, ◌↔◌, refl, subst, arith, ◌⊎◌, inl, inr,
  is_some, is_empty,
}
use rtc_simple_server.Conf.PathConf.{
  PathConf, has_static_source, has_on_demand_static_source, has_on_demand_publisher,
}
use rtc_simple_server.Core.Path.State.{
  Source, publisher, redirect, static_source, PathState, Result, ok, panic, nil_context,
}
use rtc_simple_server.Core.Path.Source.{static_reload_conf}
use rtc_simple_server.Core.Path.Run.{Event, reload_conf, new_path, start, step}
use rtc_simple_server.Core.Path.Invariant.Defs.{
  IsChecked, Inv, IsFinished, Allowed, Safe, SafeEnd, is_running, is_fresh,
}
use rtc_simple_server.Core.Path.Invariant.Steps.{start-Inv, step-Inv}

-- The states that a path with a given configuration gets into.
pub data Reach (c : PathConf) : PathState → Type 0 where
  begin : {p : PathState} → start (new_path c) ≡ ok p → Reach c p
  next :
      {p q : PathState} (e : Event)
      → Reach c p
      → p.alive ≡ true
      → Allowed e p
      → step e p ≡ ok q
      → Reach c q

ok_of : (r : Result PathState) → SafeEnd r → (q : PathState) × (r ≡ ok q) × (Inv q ⊎ IsFinished q)
ok_of (ok q) v = (q, refl, v)
ok_of (panic f) v = absurd v

-- A path that can be reached holds its invariant, or has ended with nothing left open.
pub Reach-Inv : (c : PathConf) {p : PathState} → IsChecked c → Reach c p → Inv p ⊎ IsFinished p
Reach-Inv c k (begin e) = inl (subst Safe e (start-Inv c k))
Reach-Inv c k (next {p = p} e r a l s) = elim (Reach-Inv c k r) [
  | inl v ↦ subst SafeEnd s (step-Inv e p v l)
  | inr f ↦ absurd (ground arith)
]

module _ (c : PathConf) (p : PathState) (k : IsChecked c) (r : Reach c p) (a : p.alive ≡ true) where
  reached : Inv p
  reached = elim (Reach-Inv c k r) [ inl v ↦ v | inr f ↦ absurd (ground arith) ]

  -- A path that runs on a checked configuration does not panic on the events that its surroundings
  -- are relied on to send, which leaves out the reload of a path whose static source was never
  -- started: each gives a next state, and there the path holds its invariant or has ended with no
  -- stream, no reader, no running source, no command on demand or on ready and no armed timer.
  pub step_progress :
      (e : Event) → Allowed e p → (q : PathState) × (step e p ≡ ok q) × (Inv q ⊎ IsFinished q)
  step_progress e l = ok_of (step e p) (step-Inv e p reached l)

  -- While a request is on hold there is no stream, and the timer that will answer the request with
  -- an error is armed.
  pub on_hold_timer :
      (is_empty p.describe_on_hold && is_empty p.reader_on_hold) ≡ false
      → (p.stream ≡ none) × ((p.static_ready_timer || p.publisher_ready_timer) ≡ true)
  unfolding has_on_demand_static_source
  on_hold_timer h = ground (arith, reached)

  -- While a static source on demand streams, the timer that will stop it is armed just when nobody
  -- reads.
  pub unread_static_timer :
      has_on_demand_static_source p.conf ≡ true
      → is_some p.stream ≡ true
      → p.static_close_timer ≡ is_empty p.readers
  unread_static_timer d h = ground (arith, reached)

  -- While a publisher on demand streams, the timer that will end the demand for it is armed just when
  -- nobody reads.
  pub unread_publisher_timer :
      has_on_demand_publisher p.conf ≡ true
      → is_some p.stream ≡ true
      → p.publisher_close_timer ≡ is_empty p.readers
  unread_publisher_timer d h = ground (arith, reached)

  -- A static source that is not on demand always runs; one on demand runs just while it is waited for
  -- or streams.
  pub static_running :
      has_static_source p.conf ≡ true
      → is_running p.source
        ≡ (not p.conf.source_on_demand || p.static_ready_timer || is_some p.stream)
  unfolding has_on_demand_static_source
  static_running h = ground (arith, reached)

  -- Nobody reads from a path that has no stream.
  pub readers_stream : is_empty p.readers ≡ false → is_some p.stream ≡ true
  readers_stream h = ground (arith, reached)

reload_crashes_at :
    (c : PathConf) (p : PathState) (source : Option Source)
    → p.source ≡ source
    → Inv p
    → (step (reload_conf c) p ≡ panic nil_context) ↔ (is_fresh p.source ≡ true)
unfolding step static_reload_conf
reload_crashes_at c p none e v = ground arith
reload_crashes_at c p (some redirect) e v = ground arith
reload_crashes_at c p (some (publisher a)) e v = ground arith
reload_crashes_at c p (some (static_source r)) e v = ground arith

-- On a path that holds its invariant, the reload of a configuration panics with a nil context just
-- where the path has a static source that was never started.
pub reload_crashes :
    (c : PathConf) (p : PathState)
    → Inv p
    → (step (reload_conf c) p ≡ panic nil_context) ↔ (is_fresh p.source ≡ true)
reload_crashes c p v = reload_crashes_at c p p.source refl v
