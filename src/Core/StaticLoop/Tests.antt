-- ===== src/Core/StaticLoop/Tests.antt =====
-- A static source of internal/core that fails, is reloaded and is stopped.
use rtc_simple_server.Base.{◌≡◌, refl, arith}
use rtc_simple_server.Core.StaticLoop.{
  Loop, new_loop, loop_step, can_come, Runs, impl_err, reload_conf, taken, timer_fired, begun,
  went_on,
}
use rtc_simple_server.Core.StaticLoop.Laws.{Counted, Runs-Counted}

failed : Loop
unfolding loop_step new_loop
failed = loop_step impl_err (new_loop 4)

tried_again : Loop
unfolding loop_step
tried_again = loop_step timer_fired (loop_step (reload_conf 5) failed)

tried_again-Runs : Runs 4 tried_again
unfolding can_come new_loop loop_step failed tried_again
tried_again-Runs =
    went_on timer_fired _ (went_on (reload_conf 5) _ (went_on impl_err _ begun (ground arith)) refl)
      refl

-- A configuration that comes in a pause is the one that the next instance begins with.
tried_again_conf : tried_again.handed ≡ 5
unfolding loop_step failed tried_again new_loop
tried_again_conf = refl

-- Two configurations that come one after the other can be taken in the other order.
swapped :
    (loop_step (taken 5) (
      loop_step
        (taken 6)
        (loop_step (reload_conf 6) (loop_step (reload_conf 5) (new_loop 4))))).handed
    ≡ 5
unfolding loop_step new_loop
swapped = refl

Runs-Counted_example : Counted tried_again
Runs-Counted_example = Runs-Counted 4 tried_again tried_again-Runs
