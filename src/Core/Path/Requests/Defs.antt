-- ===== src/Core/Path/Requests/Defs.antt =====
-- How often the channel of a request was answered, and how often it waits on a path.
use rtc_simple_server.Base.{ℕ, ◌+◌, List, [], ◌∷◌, ◌≡◌, if◌then◌else◌, ◌==◌}
use rtc_simple_server.Core.Path.State.{
  DescribeReq, ReaderAddReq, Effect, describe_reply, reader_reply, publisher_reply, start_reply,
  static_reply, done, PathState, Result, ok, panic,
}
use rtc_simple_server.Core.Path.Run.{
  Event, static_set_ready, static_set_not_ready, describe, publisher_remove, publisher_add,
  publisher_start, publisher_stop, reader_add, reader_remove, api_paths_list,
}

module _ (n : ℕ) where
  abbrev pub hits : ℕ → ℕ
  hits m = if m == n then 1 else 0

  -- What an effect sends to channel `n`.
  abbrev pub replies : Effect → ℕ
  replies (describe_reply m r) = hits m
  replies (reader_reply m r) = hits m
  replies (publisher_reply m r) = hits m
  replies (start_reply m r) = hits m
  replies (static_reply m r) = hits m
  replies (done m) = hits m
  replies _ = 0

  abbrev pub answers : List Effect → ℕ
  answers [] = 0
  answers (e ∷ es) = replies e + answers es

  abbrev pub held_describes : List DescribeReq → ℕ
  held_describes [] = 0
  held_describes (r ∷ rs) = hits r.res + held_describes rs

  abbrev pub held_readers : List ReaderAddReq → ℕ
  held_readers [] = 0
  held_readers (r ∷ rs) = hits r.res + held_readers rs

  -- What waits on a path; nothing does when its loop has ended.
  abbrev pub held : PathState → ℕ
  held p = if p.alive then held_describes p.describe_on_hold + held_readers p.reader_on_hold else 0

  -- What an event asks on channel `n`.
  abbrev pub asks : Event → ℕ
  asks (static_set_ready m res) = hits res
  asks (static_set_not_ready res) = hits res
  asks (describe req) = hits req.res
  asks (publisher_remove author res) = hits res
  asks (publisher_add author res) = hits res
  asks (publisher_start author m res) = hits res
  asks (publisher_stop author res) = hits res
  asks (reader_add req) = hits req.res
  asks (reader_remove author res) = hits res
  asks (api_paths_list res) = hits res
  asks _ = 0

  -- A change of a path that answers nobody and leaves alone what is on hold.
  pub record Quiet (p q : PathState) : Type 0 where
    pub same_answers : answers q.sent ≡ answers p.sent
    pub same_describes : q.describe_on_hold ≡ p.describe_on_hold
    pub same_readers : q.reader_on_hold ≡ p.reader_on_hold
    pub same_alive : q.alive ≡ p.alive

  -- Shut, so that it determines the result that it speaks of.
  unfoldable pub QuietResult : PathState → Result PathState → Type 0
  QuietResult p (ok q) = Quiet p q
  QuietResult p (panic f) = Unit
