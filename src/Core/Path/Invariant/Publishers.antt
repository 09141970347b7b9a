-- ===== src/Core/Path/Invariant/Publishers.antt =====
-- Publishers and static sources come, become ready, and go.
use text.Mathlib.Text.{◌==◌ as str_eq}
use rtc_simple_server.Base.{
  ℕ, Bool, true, false, ◌&&◌, Option, none, some, List, ◌∷◌, ◌≡◌, refl, arith, is_some, Bool-cases,
  inl, inr, if◌then◌else◌,
}
use rtc_simple_server.Conf.PathConf.{
  has_on_demand_static_source, has_on_demand_publisher, is_publisher,
}
use rtc_simple_server.Core.Path.State.{
  publisher, Source, redirect, static_source, Medias, SetupRes, publisher_reply, source_ready,
  ready_cmd_started, Effect, PathState, ok, ◌>>=◌, emit, publisher_closed,
}
use rtc_simple_server.Core.Path.Source.{publisher_close, static_stop, source_set_ready}
use rtc_simple_server.Core.Path.OnDemand.{
  on_demand_static_source_schedule_close, on_demand_publisher_schedule_close, serve_on_hold,
  on_demand_static_source_stop, do_publisher_remove,
}
use rtc_simple_server.Core.Path.Handlers.{
  is_author, handle_publisher_remove, handle_publisher_add, handle_publisher_start,
  handle_publisher_stop, handle_static_set_ready, handle_static_set_not_ready,
}
use rtc_simple_server.Core.Path.Invariant.Defs.{Inv, Safe, is_running}
use rtc_simple_server.Core.Path.Invariant.Updates.{source_set_not_ready_update}
use rtc_simple_server.Core.Path.Invariant.OnDemand.{
  stop_stream-Inv, Removed, do_publisher_remove-Inv,
}
use rtc_simple_server.Core.Path.Invariant.Readers.{serve_on_hold-Inv, emit-Inv}

pub handle_publisher_remove-Inv :
    (author res : ℕ) (p : PathState) → Inv p → Safe (handle_publisher_remove author res p)
unfolding handle_publisher_remove
handle_publisher_remove-Inv author res p v = elim (Bool-cases (is_author author p.source)) [
  | inl a ↦
      let (q, e, w, c, n) = do_publisher_remove-Inv p v (ground arith) in rw (a, e) (emit-Inv _ q w)
  | inr a ↦ rw a (emit-Inv _ p v)
]

-- A publisher takes over a path that has no source.
admit-Inv :
    (author res : ℕ) (p : PathState)
    → Inv p
    → is_publisher p.conf ≡ true
    → p.source ≡ none
    → Inv (emit (publisher_reply res SetupRes.path) (record p { source = some (publisher author) }))
unfolding has_on_demand_static_source
admit-Inv author res p v k n = ground arith

-- The source of a path that is configured for publishers is closed and removed.
override-Inv :
    (p : PathState) (source : Option Source)
    → p.source ≡ source
    → Inv p
    → is_publisher p.conf ≡ true
    → Removed p (if is_some p.source then (publisher_close p >>= do_publisher_remove) else ok p)
unfolding publisher_close
override-Inv p none e v k = (p, rw e, v, refl, e)
override-Inv p (some (publisher a)) e v k =
    let q = emit (publisher_closed a) p in
    let (r, f, w, c, n) = do_publisher_remove-Inv q (emit-Inv _ p v) (ground arith) in
    (r, ground (arith, e, f), w, c, n)
override-Inv p (some redirect) e v k = absurd (ground arith)
override-Inv p (some (static_source r)) e v k = absurd (ground arith)

pub handle_publisher_add-Inv :
    (author res : ℕ) (p : PathState) → Inv p → Safe (handle_publisher_add author res p)
unfolding handle_publisher_add
handle_publisher_add-Inv author res p v = elim (Bool-cases (is_publisher p.conf)) [
  | inl k ↦ elim (Bool-cases (is_some p.source && p.conf.disable_publisher_override)) [
    | inl d ↦ rw (k, d) (emit-Inv _ p v)
    | inr d ↦
        let (q, e, w, c, n) = override-Inv p p.source refl v k in
        rw (k, d, e) (admit-Inv author res q w (rw c k) n)
  ]
  | inr k ↦ rw k (emit-Inv _ p v)
]

-- A path that has got a stream.
abbrev streaming : PathState → Medias → Bool → List Effect → PathState
streaming p m b s = record p { stream = some m.id; ready_cmd = b; sent = s }

source_set_ready_update :
    (m : Medias) (p : PathState)
    → m.supported ≡ true
    → (b : Bool) × (s : List Effect) × (source_set_ready m p ≡ some (streaming p m b s))
unfolding source_set_ready
source_set_ready_update m p h = (
  (if str_eq p.conf.run_on_ready "" then p.ready_cmd else true),
  (if str_eq p.conf.run_on_ready ""
      then source_ready ∷ p.sent
      else source_ready ∷ ready_cmd_started ∷ p.sent),
  ground arith,
)

source_set_ready_fails :
    (m : Medias) (p : PathState) → m.supported ≡ false → source_set_ready m p ≡ none
unfolding source_set_ready
source_set_ready_fails m p h = rw h

-- The new stream on a path with a command on demand, which may have been waited for.
publisher_start_on_demand :
    (author : ℕ) (m : Medias) (p : PathState) (b : Bool) (s : List Effect)
    → Inv p
    → is_author author p.source ≡ true
    → p.stream ≡ none
    → has_on_demand_publisher p.conf ≡ true
    → Inv (
        serve_on_hold (
          on_demand_publisher_schedule_close
            (record (streaming p m b s) { publisher_ready_timer = false })))
unfolding on_demand_publisher_schedule_close has_on_demand_static_source
publisher_start_on_demand author m p b s v a n d = serve_on_hold-Inv _ (ground arith) refl

publisher_start_plain :
    (author : ℕ) (m : Medias) (p : PathState) (b : Bool) (s : List Effect)
    → Inv p
    → is_author author p.source ≡ true
    → p.stream ≡ none
    → has_on_demand_publisher p.conf ≡ false
    → Inv (streaming p m b s)
unfolding has_on_demand_static_source
publisher_start_plain author m p b s v a n d = ground arith

pub handle_publisher_start-Inv :
    (author : ℕ) (m : Medias) (res : ℕ) (p : PathState)
    → Inv p
    → (is_author author p.source ≡ true → p.stream ≡ none)
    → Inv (handle_publisher_start author m res p)
unfolding handle_publisher_start
handle_publisher_start-Inv author m res p v n = elim (Bool-cases (is_author author p.source)) [
  | inl a ↦ elim (Bool-cases m.supported) [
    | inl h ↦
        let (b, s, e) = source_set_ready_update m p h in
        elim (Bool-cases (has_on_demand_publisher p.conf)) [
          | inl d ↦
              rw (a, e, handle_publisher_start, d)
                (emit-Inv _ _ (publisher_start_on_demand author m p b s v a (n a) d))
          | inr d ↦
              rw (a, e, handle_publisher_start, d)
                (emit-Inv _ _ (publisher_start_plain author m p b s v a (n a) d))
        ]
    | inr h ↦ rw (a, source_set_ready_fails m p h, handle_publisher_start) (emit-Inv _ p v)
  ]
  | inr a ↦ rw a (emit-Inv _ p v)
]

static_ready_on_demand :
    (m : Medias) (p : PathState) (b : Bool) (s : List Effect)
    → Inv p
    → is_running p.source ≡ true
    → p.stream ≡ none
    → has_on_demand_static_source p.conf ≡ true
    → Inv (
        serve_on_hold (
          on_demand_static_source_schedule_close
            (record (streaming p m b s) { static_ready_timer = false })))
unfolding on_demand_static_source_schedule_close has_on_demand_static_source
static_ready_on_demand m p b s v a n d = serve_on_hold-Inv _ (ground arith) refl

static_ready_plain :
    (m : Medias) (p : PathState) (b : Bool) (s : List Effect)
    → Inv p
    → is_running p.source ≡ true
    → p.stream ≡ none
    → has_on_demand_static_source p.conf ≡ false
    → Inv (streaming p m b s)
static_ready_plain m p b s v a n d = ground arith

pub handle_static_set_ready-Inv :
    (m : Medias) (res : ℕ) (p : PathState)
    → Inv p
    → is_running p.source ≡ true
    → p.stream ≡ none
    → Inv (handle_static_set_ready m res p)
unfolding handle_static_set_ready
handle_static_set_ready-Inv m res p v a n = elim (Bool-cases m.supported) [
  | inl h ↦
      let (b, s, e) = source_set_ready_update m p h in
      elim (Bool-cases (has_on_demand_static_source p.conf)) [
        | inl d ↦
            rw (e, handle_static_set_ready, d)
              (emit-Inv _ _ (static_ready_on_demand m p b s v a n d))
        | inr d ↦
            rw (e, handle_static_set_ready, d) (emit-Inv _ _ (static_ready_plain m p b s v a n d))
      ]
  | inr h ↦ rw (source_set_ready_fails m p h, handle_static_set_ready) (emit-Inv _ p v)
]

pub handle_static_set_not_ready-Inv :
    (res : ℕ) (p : PathState)
    → Inv p
    → is_running p.source ≡ true
    → is_some p.stream ≡ true
    → Safe (handle_static_set_not_ready res p)
unfolding handle_static_set_not_ready on_demand_static_source_stop static_stop
    has_on_demand_static_source
handle_static_set_not_ready-Inv res p v a n =
    let (s, e) = source_set_not_ready_update p in rw (e, handle_static_set_not_ready) (ground arith)

pub handle_publisher_stop-Inv :
    (author res : ℕ) (p : PathState) → Inv p → Safe (handle_publisher_stop author res p)
unfolding handle_publisher_stop
handle_publisher_stop-Inv author res p v =
    elim (Bool-cases (is_author author p.source && is_some p.stream)) [
      | inl a ↦
          let (q, e, w, c, n) = stop_stream-Inv p v (ground arith) (ground arith) in
          rw (a, e) (emit-Inv _ q w)
      | inr a ↦ rw a (emit-Inv _ p v)
    ]
