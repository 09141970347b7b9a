-- ===== src/Core/Path/Invariant/Defs.antt =====
-- The invariant of a path, and which events its surroundings can send it.
use rtc_simple_server.Base.{
  Bool, true, false, not, ◌&&◌, ◌||◌, Option, none, some, [], ◌≡◌, is_some, is_empty, ◌⊎◌,
}
use rtc_simple_server.Conf.PathConf.{
  PathConf, has_static_source, has_on_demand_static_source, has_on_demand_publisher, is_redirect,
  is_publisher,
}
use rtc_simple_server.Core.Path.State.{
  initial, is_initial, is_waiting, is_ready, is_closing, fresh, running, Source, publisher,
  static_source, PathState, Result, ok, panic,
}
use rtc_simple_server.Core.Path.Handlers.{is_source_redirect, is_author}
use rtc_simple_server.Core.Path.Run.{
  Event, static_ready_timer_fires, static_close_timer_fires, publisher_ready_timer_fires,
  publisher_close_timer_fires, reload_conf, static_set_ready, static_set_not_ready, publisher_start,
}

abbrev pub is_static : Option Source → Bool
is_static (some (static_source r)) = true
is_static _ = false

abbrev pub is_running : Option Source → Bool
is_running (some (static_source running)) = true
is_running _ = false

abbrev pub is_fresh : Option Source → Bool
is_fresh (some (static_source fresh)) = true
is_fresh _ = false

abbrev pub is_by_publisher : Option Source → Bool
is_by_publisher (some (publisher a)) = true
is_by_publisher _ = false

-- What the check of the configuration ensures: the source is one of three kinds, and a command on
-- demand goes with publishers only.
pub record IsChecked (c : PathConf) : Type 0 where
  pub kinds : is_publisher c ≡ not (has_static_source c || is_redirect c)
  pub exclusive : (has_static_source c && is_redirect c) ≡ false
  pub demand : has_on_demand_publisher c ≡ true → is_publisher c ≡ true

-- The source is of the configured kind, and a stream has a source that provides it.
pub record SourceInv (p : PathState) : Type 0 where
  pub static_kind : is_static p.source ≡ has_static_source p.conf
  pub redirect_kind : is_source_redirect p.source ≡ is_redirect p.conf
  pub provided : is_some p.stream ≡ true → (is_running p.source || is_by_publisher p.source) ≡ true
  pub no_readers : is_some p.stream ≡ false → p.readers ≡ []
  pub no_ready_cmd : is_some p.stream ≡ false → p.ready_cmd ≡ false

-- The states of a static source: started just when it is wanted, and each timer armed in one state.
pub record StaticInv (p : PathState) : Type 0 where
  pub kept :
      has_static_source p.conf ≡ true
      → has_on_demand_static_source p.conf ≡ false
      → is_running p.source ≡ true
  pub started :
      has_on_demand_static_source p.conf ≡ true
      → is_running p.source ≡ not (is_initial p.static_state)
  pub unused : has_on_demand_static_source p.conf ≡ false → p.static_state ≡ initial
  pub ready_timer : p.static_ready_timer ≡ is_waiting p.static_state
  pub close_timer : p.static_close_timer ≡ is_closing p.static_state
  pub streams :
      has_on_demand_static_source p.conf ≡ true
      → is_some p.stream ≡ (is_ready p.static_state || is_closing p.static_state)
  pub closing_idle : is_closing p.static_state ≡ true → p.readers ≡ []
  pub ready_used : is_ready p.static_state ≡ true → is_empty p.readers ≡ false

-- The same for a publisher on demand.
pub record PublisherInv (p : PathState) : Type 0 where
  pub unused : has_on_demand_publisher p.conf ≡ false → p.publisher_state ≡ initial
  pub ready_timer : p.publisher_ready_timer ≡ is_waiting p.publisher_state
  pub close_timer : p.publisher_close_timer ≡ is_closing p.publisher_state
  pub streams :
      has_on_demand_publisher p.conf ≡ true
      → is_some p.stream ≡ (is_ready p.publisher_state || is_closing p.publisher_state)
  pub closing_idle : is_closing p.publisher_state ≡ true → p.readers ≡ []
  pub ready_used : is_ready p.publisher_state ≡ true → is_empty p.readers ≡ false

-- A request is on hold only while a source on demand is waited for.
pub record HoldInv (p : PathState) : Type 0 where
  pub describes :
      (is_waiting p.static_state || is_waiting p.publisher_state) ≡ false → p.describe_on_hold ≡ []
  pub reads :
      (is_waiting p.static_state || is_waiting p.publisher_state) ≡ false → p.reader_on_hold ≡ []

pub record Inv (p : PathState) : Type 0 where
  pub checked : IsChecked p.conf
  pub source : SourceInv p
  pub static : StaticInv p
  pub publisher : PublisherInv p
  pub holds : HoldInv p
  pub live : p.alive ≡ true

-- What is left when `run` has returned.
pub record IsFinished (p : PathState) : Type 0 where
  pub ended : p.alive ≡ false
  pub no_stream : p.stream ≡ none
  pub no_readers : p.readers ≡ []
  pub no_running : is_running p.source ≡ false
  pub no_demand_cmd : p.demand_cmd ≡ false
  pub no_ready_cmd : p.ready_cmd ≡ false
  pub no_static_timer : (p.static_ready_timer || p.static_close_timer) ≡ false
  pub no_publisher_timer : (p.publisher_ready_timer || p.publisher_close_timer) ≡ false

-- Two configurations between which a path can be updated in place: they differ in the camera and in
-- the credentials, into which no handler of a path looks, at most.
pub record Updatable (c d : PathConf) : Type 0 where
  pub same : record d { publish = c.publish; read = c.read; camera = c.camera } ≡ c

-- The events that can arrive: a timer fires only if it is armed, a static source reports only while
-- it runs and says ready and not ready by turns, a publisher that was admitted starts when it is not
-- started, and a path is reloaded only with a configuration that it can take over.
abbrev pub Allowed : Event → PathState → Type 0
Allowed static_ready_timer_fires p = p.static_ready_timer ≡ true
Allowed static_close_timer_fires p = p.static_close_timer ≡ true
Allowed publisher_ready_timer_fires p = p.publisher_ready_timer ≡ true
Allowed publisher_close_timer_fires p = p.publisher_close_timer ≡ true
Allowed (reload_conf c) p = Updatable p.conf c × (is_fresh p.source ≡ false)
Allowed (static_set_ready m res) p = (is_running p.source ≡ true) × (p.stream ≡ none)
Allowed (static_set_not_ready res) p = (is_running p.source ≡ true) × (is_some p.stream ≡ true)
Allowed (publisher_start a m res) p = is_author a p.source ≡ true → p.stream ≡ none
Allowed _ p = Unit {0}

-- A handler that did not panic and left the path as it should be.
abbrev pub Safe : Result PathState → Type 0
Safe (ok p) = Inv p
Safe (panic f) = ⊥

-- The same for one after which the loop may have ended.
abbrev pub SafeEnd : Result PathState → Type 0
SafeEnd (ok p) = Inv p ⊎ IsFinished p
SafeEnd (panic f) = ⊥
