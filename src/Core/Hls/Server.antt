-- ===== src/Core/Hls/Server.antt =====
-- internal/core/hls_server.go: the event loop of the HLS server, and the muxers that it creates.
use Prim.Native.String.{String}
use rtc_simple_server.Base.{
  ◌==◌, if◌then◌else◌, ℕ, Bool, true, false, not, ◌&&◌, ◌||◌, Option, none, some, List, [], ◌∷◌,
  ◌++◌, length, is_some,
}
use rtc_simple_server.Core.Hls.Muxer.{
  Muxer, new_muxer, MuxerEvent, closed, run_ctx_done, run_request, run_list, run_inner_ready,
  run_inner_err, run_recreate_timer, run_destroyed, inner_failed, inner_started, inner_returned,
  inner_gave_up, muxer_step, can_come,
}
use rtc_simple_server.Base.Text.{lookup, insert, delete}
use rtc_simple_server.Base.Indexed.{get_elem?, modify}
pub mod Kept
pub mod Answers
mod Tests

-- `all` has every muxer that was created, in the order of their creation; a `*hlsMuxer` is a place
-- in it, and `muxers` is the map. `refused` has the requests that the server answered with nil.
pub record Server : Type 0 where
  pub always_remux : Bool
  pub muxers : List (String × ℕ)
  pub all : List Muxer
  pub refused : List ℕ
  pub running : Bool

unfoldable pub new_server : Bool → Server
new_server always_remux = record {
  always_remux = always_remux;
  muxers = [];
  all = [];
  refused = [];
  running = true;
}

-- The event e comes to the muxer i.
unfoldable pub on_muxer : ℕ → MuxerEvent → Server → Server
unfolding modify muxer_step
on_muxer i e s = record s { all = modify s.all i (muxer_step e) }

unfoldable pub create_muxer : String → Bool → Server → Server
unfolding new_muxer insert
create_muxer name has_remote_addr s = record s {
  muxers = insert name (length s.all) s.muxers;
  all = s.all ++ (new_muxer name s.always_remux has_remote_addr ∷ []);
}

unfoldable pub refuse_request : ℕ → Server → Server
refuse_request r s = record s { refused = r ∷ s.refused }

-- `processRequest`: the muxer takes the request, or its context ends first.
unfoldable pub process_request : ℕ → Bool → ℕ → Server → Server
unfolding on_muxer refuse_request
process_request r taken i s = if taken then on_muxer i (run_request r) s else refuse_request r s

-- What the select of `run` receives, and what the muxers do of themselves. `request r name taken`
-- says whether the muxer takes the request.
pub data ServerEvent : Type 0 where
  source_ready source_not_ready : String → ServerEvent
  request : ℕ → String → Bool → ServerEvent
  muxer_close : ℕ → ServerEvent
  server_ctx_done : ServerEvent
  muxer_event : ℕ → MuxerEvent → ServerEvent

unfoldable pub handle_source_not_ready : String → Server → Server
unfolding on_muxer lookup delete
handle_source_not_ready name s = elim (lookup name s.muxers) [
  | none ↦ s
  | some i ↦ record (on_muxer i closed s) { muxers = delete name s.muxers }
]

unfoldable pub handle_request : ℕ → String → Bool → Server → Server
unfolding process_request create_muxer lookup
handle_request r name taken s = elim (lookup name s.muxers) [
  | some i ↦ process_request r taken i s
  | none ↦
      if s.always_remux
      then refuse_request r s
      else process_request r taken (length s.all) (create_muxer name true s)
]

abbrev pub is_place : Option ℕ → ℕ → Bool
is_place none i = false
is_place (some j) i = j == i

-- The muxer i, which is at the end of its `run`, is taken from the map if it is the one there.
unfoldable pub handle_muxer_close : ℕ → Server → Server
unfolding on_muxer lookup delete get_elem?
handle_muxer_close i s = elim (get_elem? s.all i) [
  | none ↦ s
  | some m ↦
      let q = on_muxer i run_destroyed s in
      if s.running && is_place (lookup m.path_name s.muxers) i
      then record q { muxers = delete m.path_name s.muxers }
      else q
]

unfoldable pub close_all : List Muxer → List Muxer
unfolding muxer_step
close_all [] = []
close_all (m ∷ ms) = muxer_step closed m ∷ close_all ms

-- The context of each muxer is derived from that of the server.
unfoldable pub server_step : ServerEvent → Server → Server
unfolding handle_source_not_ready handle_request handle_muxer_close close_all create_muxer on_muxer
server_step (source_ready name) s = if s.always_remux then create_muxer name false s else s
server_step (source_not_ready name) s = if s.always_remux then handle_source_not_ready name s else s
server_step (request r name taken) s = handle_request r name taken s
server_step (muxer_close i) s = handle_muxer_close i s
server_step server_ctx_done s = record s { all = close_all s.all; running = false }
server_step (muxer_event i e) s = on_muxer i e s

unfoldable pub comes_to : MuxerEvent → Option Muxer → Bool
unfolding can_come
comes_to e none = false
comes_to e (some m) = can_come e m

-- The events of a muxer in which the server has no part.
unfoldable pub is_own : MuxerEvent → Bool
is_own closed = false
is_own run_ctx_done = true
is_own (run_request r) = false
is_own run_list = true
is_own run_inner_ready = true
is_own run_inner_err = true
is_own run_recreate_timer = true
is_own run_destroyed = false
is_own inner_failed = true
is_own inner_started = true
is_own inner_returned = true
is_own inner_gave_up = true

abbrev pub is_ctx_done : Option Muxer → Bool
is_ctx_done none = false
is_ctx_done (some m) = m.ctx_done

-- A request is taken by a muxer that receives it, or given up for one whose context has ended.
unfoldable pub can_process : ℕ → Bool → Option Muxer → Bool
unfolding comes_to
can_process r taken m = if taken then comes_to (run_request r) m else is_ctx_done m

-- The muxer that a request goes to; a new one takes it, if the server is not about to close.
unfoldable pub can_request : ℕ → Bool → Option ℕ → Server → Bool
unfolding can_process get_elem?
can_request r taken none s = true
can_request r taken (some i) s = can_process r taken (get_elem? s.all i)

-- Which events can come. A source may be reported as ready while a muxer of its path is there: a path
-- that ends during a reload does not reach the path manager with the report that it is not ready.
unfoldable pub server_can : ServerEvent → Server → Bool
unfolding can_request comes_to is_own lookup get_elem?
server_can (source_ready name) s = s.running
server_can (source_not_ready name) s = s.running
server_can (request r name taken) s = s.running && can_request r taken (lookup name s.muxers) s
server_can (muxer_close i) s = comes_to run_destroyed (get_elem? s.all i)
server_can server_ctx_done s = s.running
server_can (muxer_event i e) s = is_own e && comes_to e (get_elem? s.all i)

unfoldable pub server_run : List ServerEvent → Server → Server
unfolding server_step
server_run [] s = s
server_run (e ∷ es) s = server_run es (server_step e s)

unfoldable pub all_can : List ServerEvent → Server → Bool
unfolding server_can server_step
all_can [] s = true
all_can (e ∷ es) s = server_can e s && all_can es (server_step e s)
