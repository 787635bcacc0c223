-- ===== src/Metrics/Service.antt =====
-- internal/metrics/service.go: the caches, their refresh, and the loop that refreshes one metric. W is the
-- world of the aggregator, whose calls may answer anything; logging is left out.
use native.Mathlib.Nat.{pow-suc}
use dalikamata.Prelude.{
  ℕ, zero, suc, ◌*◌, ◌^◌, ◌≤◌, ◌<◌, ◌≡◌, refl, Option, none, some, List, [], ◌∷◌, ◌++◌, Result, ok,
  err, arith, if◌then◌else◌,
}
use dalikamata.Prelude.Int.{ℤ, pos, negsuc, ◌≤ℤ◌, ltb_ℤ, min_ℤ, double64}
use dalikamata.Prelude.Steps.{Step, pure, then_do}
use dalikamata.Platform.{Platform}
use dalikamata.Query.Aggregation.{Results}
use dalikamata.Repo.Queries.{Query}
use dalikamata.Metrics.Queries.{pr_cycle_query, workflow_run_query, workflow_task_query}
use dalikamata.Metrics.Samples.{
  KeyError, Sample, emit_pr_cycle_tree, emit_workflow_run_tree, emit_workflow_task_tree,
}

-- 2 * time.Second in nanoseconds
abbrev pub metric_loop_initial_interval : ℤ
metric_loop_initial_interval = pos 2000000000

module _ ⦃go : Platform⦄ where
  open go use {Time}

  pub record CachedAggregation : Type 0 where
    pub tree : Results
    pub fetched : Time

  pub record MetricsService : Type 0 where
    pub pr_cycle_cache : Option CachedAggregation
    pub wf_run_cache : Option CachedAggregation
    pub wf_task_cache : Option CachedAggregation

  abbrev samples_of :
      (Results → List Sample × Option KeyError) → Option CachedAggregation → List Sample
  samples_of emit none = []
  samples_of emit (some c) = (emit c.tree).0

  -- A metric that was not computed yet is left out; an error ends its own samples only.
  unfoldable pub collect : MetricsService → List Sample
  collect s =
      samples_of emit_pr_cycle_tree s.pr_cycle_cache
      ++ (samples_of emit_workflow_run_tree s.wf_run_cache
          ++ samples_of emit_workflow_task_tree s.wf_task_cache)

  module _ {W E : Type 0} (aggregate : Query → Step W (Result E Results)) (now : W → Time) where
    -- The cache is replaced by an answer and kept on an error.
    abbrev stored :
        (CachedAggregation → MetricsService → MetricsService)
        → Result E Results
        → Step (MetricsService × W) (Option E)
    stored keep (err e) s = (s, some e)
    stored keep (ok res) s = ((keep (record { tree = res; fetched = now s.1 }) s.0, s.1), none)

    abbrev refresh_with :
        Query
        → (CachedAggregation → MetricsService → MetricsService)
        → Step (MetricsService × W) (Option E)
    refresh_with q keep s = stored keep (aggregate q s.1).1 (s.0, (aggregate q s.1).0)

    unfoldable pub refresh_pr_cycle : Step (MetricsService × W) (Option E)
    refresh_pr_cycle = refresh_with pr_cycle_query (λ c m. record m { pr_cycle_cache = some c })

    unfoldable pub refresh_workflow_run : Step (MetricsService × W) (Option E)
    refresh_workflow_run =
        refresh_with workflow_run_query (λ c m. record m { wf_run_cache = some c })

    unfoldable pub refresh_workflow_task : Step (MetricsService × W) (Option E)
    refresh_workflow_task =
        refresh_with workflow_task_query (λ c m. record m { wf_task_cache = some c })

    abbrev add_error : Option E → List E → List E
    add_error none errs = errs
    add_error (some e) errs = errs ++ (e ∷ [])

    -- Each of the three is tried, whatever the others answer.
    unfoldable pub refresh : Step (MetricsService × W) (List E)
    refresh = then_do refresh_pr_cycle (λ pr. then_do refresh_workflow_run (λ run.
        then_do refresh_workflow_task
          (λ task. pure (add_error task (add_error run (add_error pr []))))))

-- The next wait: doubled, as an int64 that may wrap around, up to the refresh interval.
abbrev pub next_interval : ℤ → ℤ → ℤ
next_interval refresh_interval interval =
    if ltb_ℤ interval refresh_interval then min_ℤ (double64 interval) refresh_interval else interval

pow_positive : (n : ℕ) → 1 ≤ 2 ^ n
pow_positive zero = omega arith
pow_positive (suc n) = rw (pow-suc 2 n) (omega (arith, pow_positive n))

-- A power of two that is below another one is at most its half.
pow_gap : (m n : ℕ) → 2 ^ n < 2 ^ m → 2 ^ n * 2 ≤ 2 ^ m
pow_gap zero n h = absurd (omega (arith, pow_positive n))
pow_gap (suc m) zero h = rw (pow-suc 2 m) (omega (arith, pow_positive m))
pow_gap (suc m) (suc n) h =
    let at_m : 2 ^ suc m ≡ 2 ^ m * 2 = pow-suc 2 m in
    let at_n : 2 ^ suc n ≡ 2 ^ n * 2 = pow-suc 2 n in
    let below : 2 ^ n < 2 ^ m = omega arith in
    let smaller : 2 ^ n * 2 ≤ 2 ^ m = pow_gap m n below in omega arith

module _ {S A : Type 0} (tick_refresh : Step S A) (refresh_interval : ℤ) where
  -- After a number of ticks: the state, and the interval that the timer is set to.
  unfoldable pub run_metric_loop : ℕ → Step S ℤ
  run_metric_loop zero =
      then_do tick_refresh (λ _. pure (min_ℤ metric_loop_initial_interval refresh_interval))
  run_metric_loop (suc ticks) =
      then_do (run_metric_loop ticks)
        (λ interval. then_do tick_refresh (λ _. pure (next_interval refresh_interval interval)))

-- The bound up to which a doubled wait does not wrap around: 2 seconds doubled 32 times.
abbrev pub longest_interval : ℕ
longest_interval = 2000000000 * 2 ^ 32

double :
    (p : ℕ) (r : ℤ)
    → (p < 2 ^ 32 → p * 2 ≤ 2 ^ 32)
    → r ≤ℤ pos longest_interval
    → next_interval r (min_ℤ (pos (2000000000 * p)) r) ≡ min_ℤ (pos (2000000000 * (p * 2))) r
double p (pos r) gap h = ground arith
double p (negsuc r) gap h = ground arith

min_ℤ-le : (a b : ℤ) → min_ℤ a b ≤ℤ b
min_ℤ-le (pos a) (pos b) = ground arith
min_ℤ-le (pos a) (negsuc b) = ground arith
min_ℤ-le (negsuc a) (pos b) = ground arith
min_ℤ-le (negsuc a) (negsuc b) = ground arith

module _ {S A : Type 0} (tick_refresh : Step S A) (refresh_interval : ℤ)
    (fits : refresh_interval ≤ℤ pos longest_interval) where
  -- If the refresh interval is at most two seconds doubled 32 times, about 272 years, then whatever
  -- the refreshes answer, after n ticks the timer waits for two seconds doubled n times, or for the
  -- refresh interval if that is shorter: so the wait never exceeds the refresh interval, and it is
  -- the refresh interval once the doubled time reaches it, or at once if it is not positive.
  pub run_metric_loop_lem :
      (n : ℕ) (s : S)
      → ((run_metric_loop tick_refresh refresh_interval n s).1
          ≡ min_ℤ (pos (2000000000 * 2 ^ n)) refresh_interval)
        × ((run_metric_loop tick_refresh refresh_interval n s).1 ≤ℤ refresh_interval)
  unfolding run_metric_loop
  run_metric_loop_lem zero s = (refl, min_ℤ-le metric_loop_initial_interval refresh_interval)
  run_metric_loop_lem (suc n) s =
      let doubled = double (2 ^ n) refresh_interval (pow_gap 32 n) fits in
      let before = (run_metric_loop_lem n s).0 in
      rw (before, doubled, pow-suc 2 n)
        (refl, min_ℤ-le (pos (2000000000 * (2 ^ n * 2))) refresh_interval)
