-- ===== src/Core/Path/Requests/Lives.antt =====
-- The requests over the whole life of a path.
use rtc_simple_server.Base.{ℕ, ◌+◌, false, ◌≡◌, subst, arith}
use rtc_simple_server.Conf.PathConf.{PathConf}
use rtc_simple_server.Core.Path.State.{PathState, Result, ok, panic}
use rtc_simple_server.Core.Path.Source.{static_start, start_run}
use rtc_simple_server.Core.Path.Run.{new_path, start}
use rtc_simple_server.Core.Path.Invariant.Lives.{Reach, begin, next}
use rtc_simple_server.Core.Path.Requests.Defs.{answers, held, asks}
use rtc_simple_server.Core.Path.Requests.Once.{step-answers}

module _ (n : ℕ) where
  -- What all events of a life have asked on channel `n`.
  abbrev pub asked : {c : PathConf} {p : PathState} → Reach c p → ℕ
  asked (begin e) = 0
  asked (next e r a l s) = asked r + asks n e

  StartsSilent : Result PathState → Type 0
  StartsSilent (ok p) = answers n p.sent + held n p ≡ 0
  StartsSilent (panic f) = Unit

  start-StartsSilent : (c : PathConf) → StartsSilent (start (new_path c))
  unfolding StartsSilent start new_path static_start start_run
  start-StartsSilent c = ground arith

  started_silent :
      (r : Result PathState) {p : PathState}
      → StartsSilent r
      → r ≡ ok p
      → answers n p.sent + held n p ≡ 0
  unfolding StartsSilent
  started_silent r s e = subst StartsSilent e s

  -- Over the life of a path, each channel was answered as often as it was asked on, less what is on
  -- hold for it.
  pub lives_answers :
      (c : PathConf) {p : PathState} (r : Reach c p) → answers n p.sent + held n p ≡ asked r
  lives_answers c (begin {p = p} e) = started_silent (start (new_path c)) (start-StartsSilent c) e
  lives_answers c (next {p = p} {q = q} e r a l s) =
      omega (arith, lives_answers c r, step-answers n e p q a s)

  -- When a path has ended, each channel was answered exactly as often as it was asked on.
  pub ended_answers :
      (c : PathConf) {p : PathState} (r : Reach c p) → p.alive ≡ false → answers n p.sent ≡ asked r
  ended_answers c {p = p} r d = ground (arith, lives_answers c r, d)
