-- ===== src/Worker.antt =====
-- app/worker: the marks of the cycles (health.py, Heartbeats) and the loop around each of them
-- (main.py). The dictionary of marks is the list of its values, in the order of insertion.
pub mod Health
use remindo.Prelude.{
  ℕ, ◌+◌, ◌*◌, Bool, true, false, Option, none, some, List, [], ◌∷◌, map, ◌==◌, if◌then◌else◌,
}
use remindo.Time.{Moment, Duration, second}
use remindo.Contracts.{
  JobId, planner_materialize, dispatcher_deliver, reaper_sweep, digest_send, ops_monitor,
}
use remindo.Ops.{CycleBeat}

abbrev pub ordinal : JobId → ℕ
ordinal planner_materialize = 0
ordinal dispatcher_deliver = 1
ordinal reaper_sweep = 2
ordinal digest_send = 3
ordinal ops_monitor = 4

abbrev pub job_eq : JobId → JobId → Bool
job_eq a b = ordinal a == ordinal b

-- self._beats[job] = beat
unfoldable pub set_beat : CycleBeat → List CycleBeat → List CycleBeat
set_beat beat [] = beat ∷ []
set_beat beat (b ∷ beats) =
    let rest = set_beat beat beats in if job_eq b.job beat.job then beat ∷ beats else b ∷ rest

-- self._beats[job], none for the KeyError
unfoldable pub get_beat : JobId → List CycleBeat → Option CycleBeat
get_beat job [] = none
get_beat job (b ∷ beats) =
    let rest = get_beat job beats in if job_eq b.job job then some b else rest

unfoldable pub register : JobId → Duration → Moment → List CycleBeat → List CycleBeat
unfolding set_beat
register job interval now beats =
    set_beat (record { job = job; interval = interval; last_tick_at = now; failures = 0 }) beats

abbrev pub marked : Moment → Bool → CycleBeat → CycleBeat
marked now failed b = record {
  job = b.job;
  interval = b.interval;
  last_tick_at = now;
  failures = b.failures + (if failed then 1 else 0);
}

abbrev pub mark_found : Moment → Bool → List CycleBeat → Option CycleBeat → Option (List CycleBeat)
unfolding set_beat
mark_found now failed beats none = none
mark_found now failed beats (some b) = some (set_beat (marked now failed b) beats)

-- none is the KeyError of a job that was not registered.
unfoldable pub mark : JobId → Moment → Bool → List CycleBeat → Option (List CycleBeat)
unfolding get_beat
mark job now failed beats = mark_found now failed beats (get_beat job beats)

-- The cycles that `run` starts, each with its interval.
abbrev pub cycles : Duration → Duration → List (JobId × Duration)
cycles planner_interval dispatch_interval =
    (planner_materialize, planner_interval)
    ∷ (dispatcher_deliver, dispatch_interval)
    ∷ (reaper_sweep, planner_interval)
    ∷ (digest_send, planner_interval)
    ∷ (ops_monitor, planner_interval)
    ∷ []

unfoldable pub register_all : Moment → List (JobId × Duration) → List CycleBeat → List CycleBeat
unfolding register
register_all started [] beats = beats
register_all started (c ∷ cs) beats = register_all started cs (register c.0 c.1 started beats)

abbrev pub error_backoff_seconds : ℕ
error_backoff_seconds = 5

-- The sleep at the end of one round of `run_loop`.
abbrev pub pause : Duration → Bool → Duration
pause interval failed = if failed then error_backoff_seconds * second else interval

-- One round of `run_loop`: its job, the clock after the cycle and whether the cycle raised.
pub record Round : Type 0 where
  pub job : JobId
  pub at : Moment
  pub failed : Bool

abbrev pub and_then :
    Option (List CycleBeat) → (List CycleBeat → Option (List CycleBeat)) → Option (List CycleBeat)
and_then none next = none
and_then (some beats) next = next beats

-- The marks after the rounds of all the loops, in the order in which they end.
unfoldable pub run_rounds : List Round → List CycleBeat → Option (List CycleBeat)
unfolding mark
run_rounds [] beats = some beats
run_rounds (r ∷ rs) beats = and_then (mark r.job r.at r.failed beats) (λ next. run_rounds rs next)
