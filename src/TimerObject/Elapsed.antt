-- ===== src/TimerObject/Elapsed.antt =====
-- How far a timer of src/timer_object.c runs.
use evil_engine.Base.{
  ℕ, ◌+◌, ◌-◌, ◌^◌, ◌≤◌, ◌<◌, ◌≡◌, refl, arith, Bool, true, false, Option, none, List, [], ◌∷◌,
  sub64, if◌then◌else◌, clash, map, ◌∙◌,
}
use evil_engine.TimerObject.{base_ticks, TimerObject, Timers, create, advance, pause, resume}

-- What is done with a timer that has no parent, and when.
pub data Event : Type 0 where
  tick : ℕ → Event
  pause_at : ℕ → Event
  resume_at : ℕ → Event

abbrev pub time_of : Event → ℕ
time_of (tick t) = t
time_of (pause_at t) = t
time_of (resume_at t) = t

-- The times do not go back, from `start` on, and end by `last`.
abbrev pub InOrder : ℕ → List Event → ℕ → Type 0
InOrder start [] last = start ≤ last
InOrder start (e ∷ es) last = (start ≤ time_of e) × InOrder (time_of e) es last

-- The last of some times, or `start` if there is none.
abbrev pub last_time : ℕ → List ℕ → ℕ
last_time start [] = start
last_time start (t ∷ ts) = last_time t ts

module _ {S : Type 0} (one : S) (scale_ticks : ℕ → S → ℕ) (timers : Timers S)
    (exact : (t : ℕ) → t < 2 ^ 53 → scale_ticks t one ≡ t) where
  unfoldable pub run : TimerObject S → List Event → TimerObject S
  run t [] = t
  run t (tick now ∷ es) = run (advance one scale_ticks timers now t) es
  run t (pause_at now ∷ es) = run (pause one scale_ticks t) es
  run t (resume_at now ∷ es) = run (resume one scale_ticks timers now t) es

  -- The clock of a timer that was created at `start`, at time `now`.
  pub record Runs (start now : ℕ) (t : TimerObject S) : Type 0 where
    pub root : t.parent ≡ none
    pub unscaled : t.scale ≡ one
    pub behind : t.bias_ticks ≤ now
    pub not_fast : t.current_ticks + start ≤ t.bias_ticks

  base : (p : Option ℕ) (later : ℕ) → p ≡ none → base_ticks one scale_ticks timers p later ≡ later
  base p later h = rw (h)

  delta :
      (p : Option ℕ) (s : S) (bias later : ℕ)
      → p ≡ none
      → s ≡ one
      → bias ≤ later
      → later < 2 ^ 53
      → scale_ticks (sub64 (base_ticks one scale_ticks timers p later) bias) s ≡ later - bias
  delta p s bias later h unscaled le small =
      let difference : sub64 later bias ≡ later - bias = omega (arith, le, small) in
      rw (h, unscaled, difference, exact (later - bias) (omega (arith, le, small)))

  either :
      (start now : ℕ) (b : Bool) (t u : TimerObject S)
      → Runs start now t
      → Runs start now u
      → Runs start now (if b then t else u)
  either start now true t u r s = r
  either start now false t u r s = s

  later-Runs :
      (start now later : ℕ) (t : TimerObject S)
      → now ≤ later
      → Runs start now t
      → Runs start later t
  later-Runs start now later t h r = record {
    root = r.root;
    unscaled = r.unscaled;
    behind = omega (arith, r.behind);
    not_fast = r.not_fast;
  }

  advance-Runs :
      (start now later : ℕ) (t : TimerObject S)
      → now ≤ later
      → later < 2 ^ 53
      → Runs start now t
      → Runs start later (advance one scale_ticks timers later t)
  unfolding advance
  advance-Runs start now later t h small r =
      let at_now = base t.parent later r.root in
      let difference =
        delta t.parent t.scale t.bias_ticks later r.root r.unscaled (omega (arith, r.behind))
          small in
      either start later t.paused t _ (later-Runs start now later t h r) (record {
        root = r.root;
        unscaled = r.unscaled;
        behind = omega (arith, at_now);
        not_fast = omega (arith, at_now, difference, r.behind, r.not_fast);
      })

  pause-Runs :
      (start now later : ℕ) (t : TimerObject S)
      → now ≤ later
      → Runs start now t
      → Runs start later (pause one scale_ticks t)
  unfolding pause
  pause-Runs start now later t h r = record {
    root = r.root;
    unscaled = r.unscaled;
    behind = omega (arith, r.behind);
    not_fast = r.not_fast;
  }

  resume-Runs :
      (start now later : ℕ) (t : TimerObject S)
      → now ≤ later
      → Runs start now t
      → Runs start later (resume one scale_ticks timers later t)
  unfolding resume
  resume-Runs start now later t h r =
      let at_now = base t.parent later r.root in
      either start later t.paused _ t
        (record {
          root = r.root;
          unscaled = r.unscaled;
          behind = omega (arith, at_now);
          not_fast = omega (arith, at_now, r.behind, r.not_fast);
        })
        (later-Runs start now later t h r)

  order : (es : List Event) (now last : ℕ) → InOrder now es last → now ≤ last
  order [] now last o = o
  order (e ∷ es) now last (o, rest) = omega (arith, o, order es (time_of e) last rest)

  Runs-le :
      (es : List Event) (start now last : ℕ) (t : TimerObject S)
      → InOrder now es last
      → last < 2 ^ 53
      → Runs start now t
      → (run t es).current_ticks + start ≤ last
  unfolding run
  Runs-le [] start now last t o small r = omega (arith, r.not_fast, r.behind)
  Runs-le (tick t' ∷ es) start now last t (o, rest) small r =
      Runs-le es start t' last _ rest small
        (advance-Runs start now t' t o (omega (arith, order es t' last rest)) r)
  Runs-le (pause_at t' ∷ es) start now last t (o, rest) small r =
      Runs-le es start t' last _ rest small (pause-Runs start now t' t o r)
  Runs-le (resume_at t' ∷ es) start now last t (o, rest) small r =
      Runs-le es start t' last _ rest small (resume-Runs start now t' t o r)

  -- The clock of a timer that is created without a parent at `start` and keeps its scale never runs
  -- ahead of the system's clock, in whatever order it is updated, paused and resumed: its ticks are
  -- at most the time since `start`. The times do not go back and stay below 2^53, where the product
  -- with 1 is exact.
  pub run-le :
      (es : List Event) (start last : ℕ)
      → InOrder start es last
      → last < 2 ^ 53
      → (run (create one scale_ticks timers none start) es).current_ticks + start ≤ last
  unfolding create
  run-le es start last o small =
      Runs-le es start start last _ o small
        (record { root = refl; unscaled = refl; behind = omega arith; not_fast = omega arith })

  -- The clock of a timer that was created at `start`, has never been paused and was updated last when
  -- its bias says.
  record Keeps (start now : ℕ) (t : TimerObject S) : Type 0 where
    runs : Runs start now t
    going : t.paused ≡ false
    exactly : t.current_ticks + start ≡ t.bias_ticks
    current : t.bias_ticks ≡ now

  otherwise :
      (start now : ℕ) (b : Bool) (t u : TimerObject S)
      → b ≡ false
      → Keeps start now u
      → Keeps start now (if b then t else u)
  otherwise start now true t u h k = absurd (clash refl h)
  otherwise start now false t u h k = k

  advance-Keeps :
      (start now later : ℕ) (t : TimerObject S)
      → now ≤ later
      → later < 2 ^ 53
      → Keeps start now t
      → Keeps start later (advance one scale_ticks timers later t)
  unfolding advance
  advance-Keeps start now later t h small k =
      let r = k.runs in
      let at_now = base t.parent later r.root in
      let difference =
        delta t.parent t.scale t.bias_ticks later r.root r.unscaled (omega (arith, r.behind))
          small in
      otherwise start later t.paused t _ k.going (record {
        runs = record {
          root = r.root;
          unscaled = r.unscaled;
          behind = omega (arith, at_now);
          not_fast = omega (arith, at_now, difference, r.behind, r.not_fast);
        };
        going = k.going;
        exactly = omega (arith, at_now, difference, r.behind, k.exactly);
        current = at_now;
      })

  run-Keeps :
      (ts : List ℕ) (start now last : ℕ) (t : TimerObject S)
      → InOrder now (map tick ts) last
      → last < 2 ^ 53
      → Keeps start now t
      → Keeps start (last_time now ts) (run t (map tick ts))
  unfolding run
  run-Keeps [] start now last t o small k = k
  run-Keeps (t' ∷ ts) start now last t (o, rest) small k =
      run-Keeps ts start t' last _ rest small
        (advance-Keeps start now t' t o (omega (arith, order (map tick ts) t' last rest)) k)

  -- A timer that is created without a parent at `start`, is never paused and keeps its scale shows
  -- after its last update exactly the time since `start`, however often it was updated in between. The
  -- times do not go back and stay below 2^53, where the product with 1 is exact.
  pub run-exact :
      (ts : List ℕ) (start last : ℕ)
      → InOrder start (map tick ts) last
      → last < 2 ^ 53
      → (run (create one scale_ticks timers none start) (map tick ts)).current_ticks + start
        ≡ last_time start ts
  unfolding create
  run-exact ts start last o small =
      let k =
        run-Keeps ts start start last (create one scale_ticks timers none start) o small (record {
          runs = record {
            root = refl;
            unscaled = refl;
            behind = omega arith;
            not_fast = omega arith;
          };
          going = refl;
          exactly = omega arith;
          current = refl;
        }) in
      k.exactly ∙ k.current
