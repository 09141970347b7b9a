-- ===== src/Core/StaticLoop/Laws.antt =====
-- How many instances of its implementation a static source of internal/core/source_static.go runs.
use rtc_simple_server.Base.{if◌then◌else◌, ℕ, ◌≡◌, refl, true, ◌||◌, arith}
use rtc_simple_server.Core.StaticLoop.{
  Loop, new_loop, LoopEvent, loop_step, can_come, Runs, impl_err, reload_conf, taken, set_ready,
  timer_fired, ctx_done, begun, went_on,
}

-- One instance runs, or none while the source waits for the next try or has ended.
pub record Counted (l : Loop) : Type 0 where
  pub count : l.instances ≡ (if l.done || l.recreating then 0 else 1)
  pub armed : l.recreate_timer ≡ l.recreating

new_loop-Counted : (conf : ℕ) → Counted (new_loop conf)
unfolding new_loop
new_loop-Counted conf = record { count = refl; armed = refl }

loop_step-instances :
    (e : LoopEvent) (l : Loop)
    → can_come e l ≡ true
    → Counted l
    → (loop_step e l).instances
      ≡ (if (loop_step e l).done || (loop_step e l).recreating then 0 else 1)
unfolding can_come loop_step
loop_step-instances impl_err l h k = ground (arith, h, k.count)
loop_step-instances (reload_conf c) l h k = ground (arith, h, k.count)
loop_step-instances (taken c) l h k = k.count
loop_step-instances (set_ready b) l h k = k.count
loop_step-instances timer_fired l h k = ground (arith, h, k.count, k.armed)
loop_step-instances ctx_done l h k = ground (arith, h, k.count)

loop_step-recreate_timer :
    (e : LoopEvent) (l : Loop)
    → Counted l
    → (loop_step e l).recreate_timer ≡ (loop_step e l).recreating
unfolding loop_step
loop_step-recreate_timer impl_err l k = refl
loop_step-recreate_timer (reload_conf c) l k = ground (arith, k.armed)
loop_step-recreate_timer (taken c) l k = k.armed
loop_step-recreate_timer (set_ready b) l k = k.armed
loop_step-recreate_timer timer_fired l k = refl
loop_step-recreate_timer ctx_done l k = ground (arith, k.armed)

-- Whatever comes to a static source, one instance of its implementation runs until the source is
-- stopped, but for the pauses after an error, in which none runs; none is left once the source has
-- stopped; and the timer of the next try is armed in the pauses and at no other time.
pub Runs-Counted : (conf : ℕ) (l : Loop) → Runs conf l → Counted l
Runs-Counted conf _ begun = new_loop-Counted conf
Runs-Counted conf _ (went_on e l r h) =
    let k = Runs-Counted conf l r in
    record { count = loop_step-instances e l h k; armed = loop_step-recreate_timer e l k }
