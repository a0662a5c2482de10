-- ===== src/Tests/Metrics.antt =====
-- The metrics: a histogram whose bounds come unsorted.
use fueltracks.Prelude.{ℕ, ◌≡◌, List, [], ◌∷◌, length}
use fueltracks.Js.Text.{codes}
use fueltracks.Metrics.{histogram, printed_count, sort}
use fueltracks.Metrics.Observed.{observe_all, tally, sum_of, observe_all-tally}

abbrev latencies : List ℕ
latencies = 7 ∷ 5000 ∷ 50 ∷ []

abbrev bounds : List ℕ
bounds = 50 ∷ 10 ∷ []

observe_all-tally_example :
    ((observe_all latencies (histogram (codes "ms") (codes "latency") bounds)).rows
      ≡ tally (sort bounds) latencies)
    × (printed_count (observe_all latencies (histogram (codes "ms") (codes "latency") bounds))
        ≡ length latencies)
    × ((observe_all latencies (histogram (codes "ms") (codes "latency") bounds)).sum
        ≡ sum_of latencies)
observe_all-tally_example = observe_all-tally (codes "ms") (codes "latency") bounds latencies
