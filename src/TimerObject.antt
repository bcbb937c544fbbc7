-- ===== src/TimerObject.antt =====
-- src/timer_object.c over src/timer.c: scaled time that can be paused.
-- The timers are the objects of a store, so that a child reads its parent. Floating point is a
-- parameter: a type `S` of scales and `scale_ticks ticks s` for `(uint64_t)(ticks * s)`. `now` is
-- what `timer_get_ticks` returns during the call.
pub mod Elapsed
pub mod Clock
mod Tests
use evil_engine.Base.{
  ℕ, ◌+◌, Bool, true, false, Option, none, some, if◌then◌else◌, add64, sub64, update,
}

pub record TimerObject (S : Type 0) : Type 0 where
  pub current_ticks : ℕ
  pub delta_ticks : ℕ
  pub parent : Option ℕ
  pub bias_ticks : ℕ
  pub scale : S
  pub paused : Bool

abbrev pub Timers : Type 0 → Type 0
Timers S = ℕ → TimerObject S

module _ {S : Type 0} (one : S) (scale_ticks : ℕ → S → ℕ) where
  -- `t->parent ? t->parent->current_ticks : timer_get_ticks()`
  abbrev pub base_ticks : Timers S → Option ℕ → ℕ → ℕ
  base_ticks timers none now = now
  base_ticks timers (some p) now = (timers p).current_ticks

  unfoldable pub create : Timers S → Option ℕ → ℕ → TimerObject S
  create timers parent now = record {
    current_ticks = 0;
    delta_ticks = 0;
    parent = parent;
    bias_ticks = base_ticks timers parent now;
    scale = one;
    paused = false;
  }

  unfoldable pub advance : Timers S → ℕ → TimerObject S → TimerObject S
  advance timers now t =
      let parent_ticks = base_ticks timers t.parent now in
      let delta = scale_ticks (sub64 parent_ticks t.bias_ticks) t.scale in
      if t.paused then t else record t {
        delta_ticks = delta;
        current_ticks = add64 t.current_ticks delta;
        bias_ticks = parent_ticks;
      }

  unfoldable pub timer_object_update : Timers S → ℕ → ℕ → Timers S
  unfolding advance
  timer_object_update timers now id = update timers id (advance timers now (timers id))

  unfoldable pub set_scale : TimerObject S → S → TimerObject S
  set_scale t s = record t { scale = s }

  unfoldable pub pause : TimerObject S → TimerObject S
  pause t = record t { paused = true }

  unfoldable pub resume : Timers S → ℕ → TimerObject S → TimerObject S
  resume timers now t =
      if t.paused
      then record t { bias_ticks = base_ticks timers t.parent now; paused = false }
      else t
