-- ===== src/Metrics/Peak.antt =====
-- The peak of a gauge of shared/metrics.js.
use fueltracks.Prelude.{ℕ, ◌≤◌, ◌≡◌, max, List, [], ◌∷◌, arith}
use fueltracks.Metrics.{Gauge, set_gauge, inc_gauge, dec_gauge}

pub data GaugeCall : Type 0 where
  setting raising lowering : ℕ → GaugeCall

abbrev pub gauge_call : GaugeCall → Gauge → Gauge
gauge_call (setting v) g = set_gauge v g
gauge_call (raising n) g = inc_gauge n g
gauge_call (lowering n) g = dec_gauge n g

abbrev pub gauge_calls : List GaugeCall → Gauge → Gauge
gauge_calls [] g = g
gauge_calls (c ∷ cs) g = gauge_calls cs (gauge_call c g)

-- The largest value that the gauge has, now and after each call.
abbrev pub largest : List GaugeCall → Gauge → ℕ
largest [] g = g.value
largest (c ∷ cs) g = max g.value (largest cs (gauge_call c g))

gauge_call-peak :
    (c : GaugeCall) (g : Gauge)
    → g.value ≤ g.peak
    → (gauge_call c g).peak ≡ max g.peak (gauge_call c g).value
unfolding set_gauge inc_gauge dec_gauge
gauge_call-peak (setting v) g h = ground arith
gauge_call-peak (raising n) g h = ground arith
gauge_call-peak (lowering n) g h = ground arith

value-largest : (cs : List GaugeCall) (g : Gauge) → g.value ≤ largest cs g
value-largest [] g = ground arith
value-largest (c ∷ cs) g = ground arith

-- Whatever calls a gauge gets whose value is at most its peak: its peak is then the largest of its
-- peak before and of all the values that it had on the way, and its value is at most its peak again.
pub gauge_calls-peak :
    (cs : List GaugeCall) (g : Gauge)
    → g.value ≤ g.peak
    → ((gauge_calls cs g).peak ≡ max g.peak (largest cs g))
      × ((gauge_calls cs g).value ≤ (gauge_calls cs g).peak)
gauge_calls-peak [] g h = (ground arith, h)
gauge_calls-peak (c ∷ cs) g h =
    let called = gauge_call c g in
    let peak = gauge_call-peak c g h in
    let (later, bound) = gauge_calls-peak cs called (omega (arith, peak)) in
    (omega (arith, later, peak, value-largest cs called), bound)
