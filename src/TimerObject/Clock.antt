-- ===== src/TimerObject/Clock.antt =====
-- src/timer.c, and what src/timer_object.c says of a timer in microseconds and milliseconds.
-- The counter of Windows and doubles are parameters: `now` is the counter during the call.
use evil_engine.Base.{ℕ, sub64}
use evil_engine.TimerObject.{TimerObject}

-- `to_u64` and `to_u32` are the conversions `(uint64_t)` and `(uint32_t)`.
pub record Doubles (D : Type 0) : Type 0 where
  pub of_ticks : ℕ → D
  pub million : D
  pub thousand : D
  pub mul : D → D → D
  pub div : D → D → D
  pub to_u64 : D → ℕ
  pub to_u32 : D → ℕ

-- The variables of the file.
pub record Clock (D : Type 0) : Type 0 where
  pub ticks_start : ℕ
  pub us_per_tick : D
  pub ms_per_tick : D

module _ {D : Type 0} (dbl : Doubles D) where
  unfoldable pub timer_get_ticks : (now : ℕ) → Clock D → ℕ
  timer_get_ticks now c = sub64 now c.ticks_start

  unfoldable pub timer_startup : (now ticks_per_second : ℕ) → Clock D → Clock D
  timer_startup now ticks_per_second c = record {
    ticks_start = timer_get_ticks now c;
    us_per_tick = dbl.div dbl.million (dbl.of_ticks ticks_per_second);
    ms_per_tick = dbl.div dbl.thousand (dbl.of_ticks ticks_per_second);
  }

  unfoldable pub timer_ticks_to_us : Clock D → ℕ → ℕ
  timer_ticks_to_us c t = dbl.to_u64 (dbl.mul (dbl.of_ticks t) c.us_per_tick)

  unfoldable pub timer_ticks_to_ms : Clock D → ℕ → ℕ
  timer_ticks_to_ms c t = dbl.to_u32 (dbl.mul (dbl.of_ticks t) c.ms_per_tick)

  module _ {S : Type 0} (c : Clock D) (t : TimerObject S) where
    unfoldable pub get_us : ℕ
    get_us = timer_ticks_to_us c t.current_ticks

    unfoldable pub get_ms : ℕ
    get_ms = timer_ticks_to_ms c t.current_ticks

    unfoldable pub get_delta_us : ℕ
    get_delta_us = timer_ticks_to_us c t.delta_ticks

    unfoldable pub get_delta_ms : ℕ
    get_delta_ms = timer_ticks_to_ms c t.delta_ticks
