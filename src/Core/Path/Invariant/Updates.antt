-- ===== src/Core/Path/Invariant/Updates.antt =====
-- The operations that only send and release, as updates of the path's record.
use rtc_simple_server.Base.{
  ℕ, suc, true, false, Option, none, some, List, [], ◌∷◌, ◌≡◌, refl, arith, is_some, remove_keys,
  remove_keys_self, if◌then◌else◌,
}
use rtc_simple_server.Core.Path.State.{
  initial, is_initial, is_closing, Source, publisher, PathError, DescribeReq, ReaderAddReq,
  DescribeRes, SetupRes, Effect, source_not_ready, publisher_closed, PathState, Result, ok, panic,
  redirect, static_source, emit,
}
use rtc_simple_server.Core.Path.Source.{
  close_readers, close_ready_cmd, publisher_close, source_set_not_ready,
}
use rtc_simple_server.Core.Path.OnDemand.{
  answer_describes, answer_readers, close_demand_cmd, fail_on_hold, reset_publisher,
  publisher_stop_with, publisher_remove_depth, on_demand_publisher_stop,
}
use rtc_simple_server.Core.Path.Invariant.Defs.{is_by_publisher}

pub close_readers_update :
    (rs : List ℕ) (p : PathState)
    → (s : List Effect) × (close_readers rs p
        ≡ record p { readers = remove_keys rs p.readers; sent = s })
unfolding close_readers remove_keys
close_readers_update [] p = (p.sent, refl)
close_readers_update (r ∷ rs) p = close_readers_update rs _

pub source_set_not_ready_update :
    (p : PathState)
    → (s : List Effect) × (source_set_not_ready p
        ≡ record p { stream = none; readers = []; ready_cmd = false; sent = s })
unfolding source_set_not_ready close_ready_cmd
source_set_not_ready_update p =
    let q = emit source_not_ready p in
    let (s, e) = close_readers_update p.readers q in
    ((source_set_not_ready p).sent, ground (arith, e, remove_keys_self p.readers))

pub answer_describes_update :
    (a : DescribeRes) (reqs : List DescribeReq) (p : PathState)
    → (s : List Effect) × (answer_describes a reqs p ≡ record p { sent = s })
unfolding answer_describes
answer_describes_update a [] p = (p.sent, refl)
answer_describes_update a (req ∷ reqs) p = answer_describes_update a reqs _

pub answer_readers_update :
    (a : SetupRes) (reqs : List ReaderAddReq) (p : PathState)
    → (s : List Effect) × (answer_readers a reqs p ≡ record p { sent = s })
unfolding answer_readers
answer_readers_update a [] p = (p.sent, refl)
answer_readers_update a (req ∷ reqs) p = answer_readers_update a reqs _

pub close_demand_cmd_update :
    (p : PathState)
    → (s : List Effect) × (close_demand_cmd p ≡ record p { demand_cmd = false; sent = s })
unfolding close_demand_cmd
close_demand_cmd_update p = ((close_demand_cmd p).sent, ground arith)

pub fail_on_hold_update :
    (e : PathError) (p : PathState)
    → (s : List Effect) × (fail_on_hold e p
        ≡ record p { describe_on_hold = []; reader_on_hold = []; sent = s })
unfolding fail_on_hold
fail_on_hold_update e p =
    let (s, d) = answer_describes_update (DescribeRes.failed e) p.describe_on_hold p in
    let q = record p { describe_on_hold = []; sent = s } in
    let (t, r) = answer_readers_update (SetupRes.failed e) p.reader_on_hold q in
    ((fail_on_hold e p).sent, ground (arith, d, r))

-- The inner call of `doPublisherRemove`, which finds the state already reset.
pub publisher_remove_depth_update :
    (n : ℕ) (p : PathState)
    → (is_some p.stream ≡ false → (p.readers ≡ []) × (p.ready_cmd ≡ false))
    → is_initial p.publisher_state ≡ true
    → (s : List Effect) × (publisher_remove_depth (suc n) p
        ≡ ok (record p { source = none; stream = none; readers = []; ready_cmd = false; sent = s }))
unfolding publisher_remove_depth
publisher_remove_depth_update n p idle i =
    let (s, e) = source_set_not_ready_update p in
    ((if is_some p.stream then s else p.sent), ground (arith, e))

sent_of : Result PathState → List Effect
sent_of (ok p) = p.sent
sent_of (panic f) = []

abbrev pub stopped_publisher : PathState → List Effect → PathState
stopped_publisher p s = record p {
  source = none;
  stream = none;
  readers = [];
  ready_cmd = false;
  demand_cmd = false;
  publisher_state = initial;
  publisher_close_timer = if is_closing p.publisher_state then false else p.publisher_close_timer;
  sent = s;
}

module _ (p : PathState) where
  reset : List Effect → PathState
  reset s = record p {
    publisher_state = initial;
    publisher_close_timer = if is_closing p.publisher_state then false else p.publisher_close_timer;
    sent = s;
  }

  -- What `onDemandPublisherStop` does to a path whose source can only be a publisher.
  pub on_demand_publisher_stop_update :
      (source : Option Source)
      → p.source ≡ source
      → (is_some p.stream ≡ false → (p.readers ≡ []) × (p.ready_cmd ≡ false))
      → (is_some p.source ≡ false → p.stream ≡ none)
      → (is_some p.source ≡ true → is_by_publisher p.source ≡ true)
      → (s : List Effect) × (on_demand_publisher_stop p ≡ ok (stopped_publisher p s))
  unfolding on_demand_publisher_stop publisher_stop_with reset_publisher close_demand_cmd
      publisher_close sent_of reset
  on_demand_publisher_stop_update none e idle nosource only =
      (sent_of (on_demand_publisher_stop p), ground (arith, e))
  on_demand_publisher_stop_update (some (publisher a)) e idle nosource only =
      let (s, r) =
        publisher_remove_depth_update 0 (reset (publisher_closed a ∷ p.sent)) idle refl in
      (sent_of (on_demand_publisher_stop p), ground (arith, e, r))
  on_demand_publisher_stop_update (some redirect) e idle nosource only = absurd (ground arith)
  on_demand_publisher_stop_update (some (static_source r)) e idle nosource only =
      absurd (ground arith)
