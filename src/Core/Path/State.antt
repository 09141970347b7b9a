-- ===== src/Core/Path/State.antt =====
-- internal/core/path.go: the state of a path, the requests it gets and what it sends out.
use Prim.Native.String.{String}
use rtc_simple_server.Base.{ℕ, Bool, true, false, Option, List, ◌∷◌}
use rtc_simple_server.Conf.PathConf.{PathConf}

pub data OnDemandState : Type 0 where
  initial waiting_ready ready closing : OnDemandState

abbrev pub is_initial : OnDemandState → Bool
is_initial initial = true
is_initial _ = false

abbrev pub is_waiting : OnDemandState → Bool
is_waiting waiting_ready = true
is_waiting _ = false

abbrev pub is_ready : OnDemandState → Bool
is_ready ready = true
is_ready _ = false

abbrev pub is_closing : OnDemandState → Bool
is_closing closing = true
is_closing _ = false

-- A `sourceStatic`: `fresh` until its first start, since only `start` sets its context.
pub data StaticRun : Type 0 where
  fresh running stopped : StaticRun

-- What `pa.source` points to; a publisher is known by a number.
pub data Source : Type 0 where
  publisher : ℕ → Source
  redirect : Source
  static_source : StaticRun → Source

-- The medias of a stream, by a number, and whether `newStream` accepts them.
pub record Medias : Type 0 where
  pub id : ℕ
  pub supported : Bool

pub record Url : Type 0 where
  pub scheme : String
  pub user : String
  pub host : String

-- `res` names the channel on which the request is answered.
pub record DescribeReq : Type 0 where
  pub res : ℕ
  pub url : Url

pub record ReaderAddReq : Type 0 where
  pub res : ℕ
  pub author : ℕ

pub data PathError : Type 0 where
  timed_out no_one_publishing source_not_publisher already_publishing : PathError
  not_assigned stream_error terminated : PathError

-- A URL that is sent back: as it is configured, or a path on the host that the request names.
pub data Target : Type 0 where
  url : String → Target
  same_host : Url → String → Target

pub data DescribeRes : Type 0 where
  stream : Option ℕ → DescribeRes
  redirect_to : Target → DescribeRes
  failed : PathError → DescribeRes

-- A reply with `pa.stream`, with the path alone, or with an error.
pub data SetupRes : Type 0 where
  stream : Option ℕ → SetupRes
  path : SetupRes
  failed : PathError → SetupRes

pub data Effect : Type 0 where
  describe_reply : ℕ → DescribeRes → Effect
  reader_reply : ℕ → SetupRes → Effect
  publisher_reply : ℕ → SetupRes → Effect
  start_reply : ℕ → SetupRes → Effect
  static_reply : ℕ → SetupRes → Effect
  done : ℕ → Effect
  source_ready source_not_ready path_closed : Effect
  reader_closed publisher_closed : ℕ → Effect
  static_started static_stopped static_reload : Effect
  init_cmd_started init_cmd_closed : Effect
  demand_cmd_started demand_cmd_closed : Effect
  ready_cmd_started ready_cmd_closed : Effect

-- `sent` holds what the path has done, the newest first. A timer is a Boolean: armed or not.
-- `alive` turns false when `run` returns.
pub record PathState : Type 0 where
  pub conf : PathConf
  pub source : Option Source
  pub stream : Option ℕ
  pub readers : List ℕ
  pub describe_on_hold : List DescribeReq
  pub reader_on_hold : List ReaderAddReq
  pub init_cmd : Bool
  pub demand_cmd : Bool
  pub ready_cmd : Bool
  pub static_state : OnDemandState
  pub static_ready_timer : Bool
  pub static_close_timer : Bool
  pub publisher_state : OnDemandState
  pub publisher_ready_timer : Bool
  pub publisher_close_timer : Bool
  pub alive : Bool
  pub sent : List Effect

-- A Go panic: a failed type assertion, the explicit panics of `sourceStatic`, the use of a context
-- that is nil. `out_of_fuel` is no Go value.
pub data Fault : Type 0 where
  wrong_source should_not_happen nil_context out_of_fuel : Fault

pub data Result {ℓ} (A : Type ℓ) : Type ℓ where
  ok : A → Result A
  panic : Fault → Result A

infixl 5 ◌>>=◌
abbrev pub ◌>>=◌ {ℓ κ} : {A : Type ℓ} {B : Type κ} → Result A → (A → Result B) → Result B
ok a >>= f = f a
panic e >>= f = panic e

abbrev pub emit : Effect → PathState → PathState
emit e p = record p { sent = e ∷ p.sent }
