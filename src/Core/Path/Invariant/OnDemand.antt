-- ===== src/Core/Path/Invariant/OnDemand.antt =====
-- The start and the stop of a source on demand keep the invariant.
use rtc_simple_server.Base.{
  Bool, true, false, not, ◌&&◌, ◌||◌, none, some, List, [], ◌∷◌, ◌≡◌, refl, arith, is_some,
  Bool-cases, inl, inr, if◌then◌else◌,
}
use rtc_simple_server.Conf.PathConf.{
  has_static_source, has_on_demand_static_source, has_on_demand_publisher, is_redirect,
}
use rtc_simple_server.Core.Path.State.{
  waiting_ready, running, static_source, static_started, is_waiting, is_initial, is_closing,
  DescribeReq, ReaderAddReq, Effect, PathState, Result, ok, ◌>>=◌,
}
use rtc_simple_server.Core.Path.Source.{static_start, source_set_not_ready}
use rtc_simple_server.Core.Path.OnDemand.{
  on_demand_static_source_start, on_demand_publisher_start, do_publisher_remove,
  on_demand_publisher_stop, publisher_remove_depth,
}
use rtc_simple_server.Core.Path.Handlers.{demand_static, demand_publisher}
use rtc_simple_server.Core.Path.Invariant.Defs.{Inv, is_by_publisher}
use rtc_simple_server.Core.Path.Invariant.Updates.{
  source_set_not_ready_update, on_demand_publisher_stop_update, stopped_publisher,
}

-- A path whose source on demand was started, if it was not, and is waited for.
abbrev pub Demanded : PathState → Result PathState → Type 0
Demanded p r =
    (q : PathState) × (r ≡ ok q)
    × Inv q
    × ((is_waiting q.static_state || is_waiting q.publisher_state) ≡ true)

abbrev started_static : PathState → PathState
started_static p = record p {
  source = some (static_source running);
  static_ready_timer = true;
  static_state = waiting_ready;
  sent = static_started ∷ p.sent;
}

pub demand_static-Inv :
    (p : PathState)
    → Inv p
    → has_on_demand_static_source p.conf ≡ true
    → is_some p.stream ≡ false
    → Demanded p (demand_static p)
unfolding demand_static on_demand_static_source_start static_start has_on_demand_static_source
demand_static-Inv p v d n = elim (Bool-cases (is_initial p.static_state)) [
  | inl i ↦ (started_static p, ground arith, ground arith, refl)
  | inr i ↦ (p, ground arith, v, ground arith)
]

pub demand_publisher-Inv :
    (p : PathState)
    → Inv p
    → has_on_demand_publisher p.conf ≡ true
    → is_some p.stream ≡ false
    → Inv (demand_publisher p)
      × ((is_waiting (demand_publisher p).static_state
            || is_waiting (demand_publisher p).publisher_state)
          ≡ true)
unfolding demand_publisher on_demand_publisher_start has_on_demand_static_source
demand_publisher-Inv p v d n = (ground arith, ground arith)

-- A path with other timers of its publisher and other requests on hold, as it is when it stops one.
abbrev pub with_holds :
    PathState → Bool → Bool → List DescribeReq → List ReaderAddReq → List Effect → PathState
with_holds p r c ds rs s = record p {
  publisher_ready_timer = r;
  publisher_close_timer = c;
  describe_on_hold = ds;
  reader_on_hold = rs;
  sent = s;
}

-- A handler that left the path without a source.
abbrev pub Removed : PathState → Result PathState → Type 0
Removed p r = (q : PathState) × (r ≡ ok q) × Inv q × (q.conf ≡ p.conf) × (q.source ≡ none)

pub on_demand_publisher_stop-Inv :
    (p : PathState) (r c : Bool) (ds : List DescribeReq) (rs : List ReaderAddReq) (s : List Effect)
    → Inv p
    → has_on_demand_publisher p.conf ≡ true
    → r ≡ false
    → (is_closing p.publisher_state ≡ false → c ≡ false)
    → ds ≡ []
    → rs ≡ []
    → Removed p (on_demand_publisher_stop (with_holds p r c ds rs s))
on_demand_publisher_stop-Inv p r c ds rs s v d hr hc hd hs =
    let q = with_holds p r c ds rs s in
    let (t, e) =
      on_demand_publisher_stop_update q p.source refl (ground arith) (ground arith)
        (ground arith) in
    (stopped_publisher q t, e, ground arith, refl, refl)

-- How `doPublisherRemove` and `handlePublisherStop` end the stream of a publisher.
abbrev pub stop_stream : PathState → Result PathState
stop_stream p =
    if has_on_demand_publisher p.conf && not (is_initial p.publisher_state)
    then on_demand_publisher_stop p
    else ok (source_set_not_ready p)

-- `doPublisherRemove` as it stands in the code, with the whole of `onDemandPublisherStop` inside.
pub do_publisher_remove_lem :
    (p : PathState)
    → do_publisher_remove p ≡ (
        (if is_some p.stream then stop_stream p else ok p) >>= λ q. ok (record q { source = none }))
unfolding do_publisher_remove publisher_remove_depth on_demand_publisher_stop
do_publisher_remove_lem p = refl

-- A handler that left the path without a stream.
abbrev pub Silenced : PathState → Result PathState → Type 0
Silenced p r = (q : PathState) × (r ≡ ok q) × Inv q × (q.conf ≡ p.conf) × (q.stream ≡ none)

pub stop_stream-Inv :
    (p : PathState)
    → Inv p
    → is_by_publisher p.source ≡ true
    → is_some p.stream ≡ true
    → Silenced p (stop_stream p)
unfolding has_on_demand_static_source
stop_stream-Inv p v b streams = elim (Bool-cases (has_on_demand_publisher p.conf)) [
  | inl demand ↦
      let (q, e, w, c, n) =
        on_demand_publisher_stop-Inv p p.publisher_ready_timer p.publisher_close_timer
          p.describe_on_hold p.reader_on_hold p.sent v demand (ground arith) (ground arith)
          (ground arith) (ground arith) in
      (q, ground (arith, e), w, c, ground (arith, w, n))
  | inr other ↦
      let (s, e) = source_set_not_ready_update p in
      (
        record p { stream = none; readers = []; ready_cmd = false; sent = s },
        ground (arith, e),
        ground arith,
        refl,
        refl,
      )
]

-- A path with no stream loses its publisher.
drop_source-Inv :
    (p : PathState)
    → Inv p
    → has_static_source p.conf ≡ false
    → is_redirect p.conf ≡ false
    → p.stream ≡ none
    → Inv (record p { source = none })
unfolding has_on_demand_static_source
drop_source-Inv p v k r n = ground arith

-- A publisher leaves.
pub do_publisher_remove-Inv :
    (p : PathState) → Inv p → is_by_publisher p.source ≡ true → Removed p (do_publisher_remove p)
do_publisher_remove-Inv p v b =
    let k : has_static_source p.conf ≡ false = ground arith in
    let r : is_redirect p.conf ≡ false = ground arith in
    elim (Bool-cases (is_some p.stream)) [
      | inl streams ↦
          let (q, e, w, c, n) = stop_stream-Inv p v b streams in
          (
            record q { source = none },
            rw (do_publisher_remove_lem, streams, e),
            drop_source-Inv q w (rw c k) (rw c r) n,
            c,
            refl,
          )
      | inr silent ↦ (
        record p { source = none },
        rw (do_publisher_remove_lem, silent),
        drop_source-Inv p v k r (ground arith),
        refl,
        refl,
      )
    ]
