-- ===== src/Tests/Metered.antt =====
-- A loop that refreshes every 30 seconds at most.
use dalikamata.Prelude.{ℕ, suc, ◌≡◌, arith}
use dalikamata.Prelude.Int.{pos, ◌≤ℤ◌}
use dalikamata.Prelude.Steps.{Step}
use dalikamata.Metrics.Service.{run_metric_loop, run_metric_loop_lem}

abbrev count_tick : Step ℕ (Unit {0})
count_tick n = (suc n, tt)

run_metric_loop_example :
    ((run_metric_loop count_tick (pos 30000000000) 4 0).1 ≡ pos 30000000000)
    × ((run_metric_loop count_tick (pos 30000000000) 4 0).1 ≤ℤ pos 30000000000)
run_metric_loop_example = run_metric_loop_lem count_tick (pos 30000000000) (omega arith) 4 0
