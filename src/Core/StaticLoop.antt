-- ===== src/Core/StaticLoop.antt =====
-- internal/core/source_static.go: the goroutine of a static source, which runs its implementation and
-- runs it again after a pause when it fails.
use rtc_simple_server.Base.{
  ltb, ◌==◌, if◌then◌else◌, contains, ℕ, suc, ◌-◌, ◌≡◌, Bool, true, false, not, ◌&&◌, List, [], ◌∷◌,
}
pub mod Laws
mod Tests

-- The variables of `run`: `instances` counts the goroutines that run the implementation, `handed` is
-- the configuration that the last of them began with or took over since, and `pending` holds the
-- configurations that goroutines of a reload still offer to it, the oldest last. Configurations are
-- numbers.
pub record Loop : Type 0 where
  pub conf : ℕ
  pub instances : ℕ
  pub handed : ℕ
  pub pending : List ℕ
  pub recreating : Bool
  pub recreate_timer : Bool
  pub forwarded : List Bool
  pub done : Bool

unfoldable pub recreate : Loop → Loop
recreate l = record l { instances = suc l.instances; handed = l.conf; pending = [] }

unfoldable pub new_loop : ℕ → Loop
unfolding recreate
new_loop conf = recreate (record {
  conf = conf;
  instances = 0;
  handed = conf;
  pending = [];
  recreating = false;
  recreate_timer = false;
  forwarded = [];
  done = false;
})

-- One of the offers of a configuration is gone.
unfoldable pub remove_one : ℕ → List ℕ → List ℕ
remove_one c [] = []
remove_one c (d ∷ ds) = let others = remove_one c ds in if d == c then ds else d ∷ others

-- What the select receives, and the reception of a configuration by the implementation, which takes
-- any of those that are offered. `set_ready b` is the message that the source is ready, or not.
pub data LoopEvent : Type 0 where
  impl_err : LoopEvent
  reload_conf : ℕ → LoopEvent
  taken : ℕ → LoopEvent
  set_ready : Bool → LoopEvent
  timer_fired : LoopEvent
  ctx_done : LoopEvent

-- One round of the loop, or the reception of a configuration. The goroutines that offer a
-- configuration to an instance end with its context.
unfoldable pub loop_step : LoopEvent → Loop → Loop
unfolding recreate remove_one
loop_step impl_err l = record l {
  instances = l.instances - 1;
  pending = [];
  recreating = true;
  recreate_timer = true;
}
loop_step (reload_conf c) l =
    let m = record l { conf = c } in
    if not l.recreating then record m { pending = c ∷ l.pending } else m
loop_step (taken c) l = record l { handed = c; pending = remove_one c l.pending }
loop_step (set_ready b) l = record l { forwarded = b ∷ l.forwarded }
loop_step timer_fired l = record (recreate l) { recreating = false; recreate_timer = false }
loop_step ctx_done l =
    if not l.recreating
    then record l { instances = l.instances - 1; pending = []; done = true }
    else record l { done = true }

-- The events that can come: an error only from an instance that runs, a configuration is taken if
-- it is offered, a timer fires if it is armed, and nothing comes after the end.
unfoldable pub can_come : LoopEvent → Loop → Bool
can_come impl_err l = not l.done && ltb 0 l.instances
can_come (reload_conf c) l = not l.done
can_come (taken c) l = not l.done && contains l.pending c
can_come (set_ready b) l = not l.done
can_come timer_fired l = not l.done && l.recreate_timer
can_come ctx_done l = not l.done

pub data Runs (conf : ℕ) : Loop → Type 0 where
  begun : Runs conf (new_loop conf)
  went_on :
      (e : LoopEvent) (l : Loop) → Runs conf l → can_come e l ≡ true → Runs conf (loop_step e l)
