-- ===== src/Worker/Health.antt =====
-- What the marks of the cycles say after any number of rounds.
use remindo.Prelude.{
  ℕ, ◌+◌, ◌≡◌, ◌∙◌, refl, ap, true, some, List, [], ◌∷◌, arith, if◌then◌else◌, Bool-cases, inl, inr,
  sym, zero, suc, ==_iff,
}
use remindo.Time.{Moment, Duration}
use remindo.Contracts.{
  JobId, planner_materialize, dispatcher_deliver, reaper_sweep, digest_send, ops_monitor,
}
use remindo.Ops.{CycleBeat}
use remindo.Worker.{
  Round, set_beat, get_beat, mark, mark_found, marked, register_all, register, cycles, run_rounds,
  job_eq, ordinal,
}

-- The last of the rounds of a job.
abbrev pub last_round : JobId → Moment → List Round → Moment
last_round job started [] = started
last_round job started (r ∷ rs) = last_round job (if job_eq r.job job then r.at else started) rs

-- The failed rounds of a job.
abbrev pub failed_rounds : JobId → List Round → ℕ
failed_rounds job [] = 0
failed_rounds job (r ∷ rs) =
    (if job_eq r.job job then (if r.failed then 1 else 0) else 0) + failed_rounds job rs

abbrev pub HasAll : List CycleBeat → Type 0
HasAll beats = (job : JobId) → (b : CycleBeat) × (get_beat job beats ≡ some b)

get_beat-set_beat :
    (job : JobId) (beat : CycleBeat) (beats : List CycleBeat)
    → get_beat job (set_beat beat beats)
      ≡ (if job_eq beat.job job then some beat else get_beat job beats)
unfolding get_beat set_beat
get_beat-set_beat job beat [] = ground arith
get_beat-set_beat job beat (b ∷ beats) = ground (arith, get_beat-set_beat job beat beats)

job_eq→≡ : (a b : JobId) → job_eq a b ≡ true → a ≡ b
job_eq→≡ a b h =
    job_of-ordinal a ∙ ap job_of ((==_iff (ordinal a) (ordinal b)).0 h) ∙ sym (job_of-ordinal b)
  where
    job_of : ℕ → JobId
    job_of zero = planner_materialize
    job_of (suc zero) = dispatcher_deliver
    job_of (suc (suc zero)) = reaper_sweep
    job_of (suc (suc (suc zero))) = digest_send
    job_of (suc (suc (suc (suc n)))) = ops_monitor

    job_of-ordinal : (j : JobId) → j ≡ job_of (ordinal j)
    job_of-ordinal planner_materialize = refl
    job_of-ordinal dispatcher_deliver = refl
    job_of-ordinal reaper_sweep = refl
    job_of-ordinal digest_send = refl
    job_of-ordinal ops_monitor = refl

get_beat-job :
    (job : JobId) (beats : List CycleBeat) {b : CycleBeat}
    → get_beat job beats ≡ some b
    → job_eq b.job job ≡ true
unfolding get_beat
get_beat-job job [] h = cc
get_beat-job job (x ∷ beats) {b} h = ground (arith, get_beat-job job beats {b = b})

mark-some :
    (r : Round) (beats : List CycleBeat) {b : CycleBeat}
    → get_beat r.job beats ≡ some b
    → mark r.job r.at r.failed beats ≡ some (set_beat (marked r.at r.failed b) beats)
unfolding mark mark_found
mark-some r beats h = rw h refl

-- A round of a registered job leaves the marks of the other jobs and moves its own.
get_beat-marked :
    (job : JobId) (r : Round) (beats : List CycleBeat) (before : JobId → CycleBeat)
    → ((j : JobId) → get_beat j beats ≡ some (before j))
    → get_beat job (set_beat (marked r.at r.failed (before r.job)) beats)
      ≡ some (if job_eq r.job job then marked r.at r.failed (before job) else before job)
get_beat-marked job r beats before h =
    let own : job_eq (before r.job).job r.job ≡ true = get_beat-job r.job beats (h r.job) in
    let same : job_eq (before r.job).job job ≡ job_eq r.job job = ground arith in
    let found = get_beat-set_beat job (marked r.at r.failed (before r.job)) beats in
    elim (Bool-cases (job_eq r.job job)) [
      | inl e ↦ let eq : r.job ≡ job = job_eq→≡ r.job job e in found ∙ rw (same, e, eq) refl
      | inr e ↦ found ∙ rw (same, e) (h job)
    ]

-- The mark of a job after the rounds of all the loops.
abbrev pub after_rounds : JobId → List Round → CycleBeat → CycleBeat
after_rounds job rs b = record {
  job = b.job;
  interval = b.interval;
  last_tick_at = last_round job b.last_tick_at rs;
  failures = b.failures + failed_rounds job rs;
}

after_rounds-marked :
    (job : JobId) (r : Round) (rs : List Round) (b : CycleBeat)
    → after_rounds job rs (if job_eq r.job job then marked r.at r.failed b else b)
      ≡ after_rounds job (r ∷ rs) b
after_rounds-marked job r rs b =
    let sums : (b.failures + (if r.failed then 1 else 0)) + failed_rounds job rs
        ≡ b.failures + ((if r.failed then 1 else 0) + failed_rounds job rs) =
      omega arith in
    let none_failed : failed_rounds job rs ≡ 0 + failed_rounds job rs = omega arith in
    elim (Bool-cases (job_eq r.job job)) [
      | inl e ↦ rw (e, sums) refl
      | inr e ↦ rw e (
          ap
            (λ n. record {
              job = b.job;
              interval = b.interval;
              last_tick_at = last_round job b.last_tick_at rs;
              failures = b.failures + n;
            })
            none_failed)
    ]

-- Registered cycles never miss their mark.
run_rounds_lem :
    (rs : List Round) (beats : List CycleBeat) (before : JobId → CycleBeat)
    → ((job : JobId) → get_beat job beats ≡ some (before job))
    → (next : List CycleBeat) × (run_rounds rs beats ≡ some next)
      × ((job : JobId) → get_beat job next ≡ some (after_rounds job rs (before job)))
unfolding run_rounds
run_rounds_lem [] beats before h = (
  beats,
  refl,
  λ job.
      let same : before job ≡ after_rounds job [] (before job) =
        ap
          (λ n. record {
            job = (before job).job;
            interval = (before job).interval;
            last_tick_at = (before job).last_tick_at;
            failures = n;
          })
          (omega arith) in
      h job ∙ ap some same,
)
run_rounds_lem (r ∷ rs) beats before h =
    let after : JobId → CycleBeat =
      λ job. if job_eq r.job job then marked r.at r.failed (before job) else before job in
    let next = set_beat (marked r.at r.failed (before r.job)) beats in
    let rest = run_rounds_lem rs next after (λ job. get_beat-marked job r beats before h) in
    let mark_eq : mark r.job r.at r.failed beats ≡ some next = mark-some r beats (h r.job) in
    (
      rest.0,
      rw mark_eq rest.1,
      λ job. rest.2 job ∙ ap some (after_rounds-marked job r rs (before job)),
    )

-- The interval of a cycle of the worker.
abbrev pub interval_of : Duration → Duration → JobId → Duration
interval_of planner_interval dispatch_interval dispatcher_deliver = dispatch_interval
interval_of planner_interval dispatch_interval other = planner_interval

first_beat : Moment → Duration → Duration → JobId → CycleBeat
first_beat started p d job = record {
  job = job;
  interval = interval_of p d job;
  last_tick_at = started;
  failures = 0;
}

registered :
    (started : Moment) (p d : Duration) (job : JobId)
    → get_beat job (register_all started (cycles p d) []) ≡ some (first_beat started p d job)
unfolding get_beat register_all register set_beat first_beat
registered started p d planner_materialize = refl
registered started p d dispatcher_deliver = refl
registered started p d reaper_sweep = refl
registered started p d digest_send = refl
registered started p d ops_monitor = refl

-- Once the worker has registered its cycles, no round of any of them misses its mark, in whatever
-- order they end: the mark of a cycle carries its interval, the end of its last round, failed or not
-- (or the start of the worker), and the number of its rounds that failed.
pub run_rounds-marks :
    (started : Moment) (planner_interval dispatch_interval : Duration) (rounds : List Round)
    → (beats : List CycleBeat) × (run_rounds rounds
          (register_all started (cycles planner_interval dispatch_interval) [])
        ≡ some beats)
      × ((job : JobId)
          → get_beat job beats
            ≡ some (record {
              job = job;
              interval = interval_of planner_interval dispatch_interval job;
              last_tick_at = last_round job started rounds;
              failures = failed_rounds job rounds;
            }))
unfolding first_beat
run_rounds-marks started p d rounds =
    let ran =
      run_rounds_lem rounds (register_all started (cycles p d) []) (first_beat started p d)
        (registered started p d) in
    (
      ran.0,
      ran.1,
      λ job.
          let sums : 0 + failed_rounds job rounds ≡ failed_rounds job rounds = omega arith in
          ran.2 job
          ∙ ap
              (λ n. some (record {
                job = job;
                interval = interval_of p d job;
                last_tick_at = last_round job started rounds;
                failures = n;
              }))
              sums,
    )
