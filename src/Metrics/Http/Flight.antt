-- ===== src/Metrics/Http/Flight.antt =====
-- The metrics of the middleware while requests overlap: each request is the half of the middleware
-- in front of its handlers, the work of other requests, and the half behind them.
use scuffinger.Prelude.{ℕ, suc, ◌+◌, ◌≡◌, refl, [], arith, ap, ◌∙◌, length, list_eq, string_eq}
use scuffinger.Prelude.Int.{pos, ◌+ℤ◌}
use scuffinger.Metrics.Health.{total, total-inc}
use scuffinger.Metrics.Http.{HttpMetrics, Served, returned, panicked, enter, leave, after_next}

-- the metrics, and how many requests run, have returned and have panicked
pub record Traffic : Type 0 where
  pub metrics : HttpMetrics
  pub running : ℕ
  pub answered : ℕ
  pub panics : ℕ

abbrev pub idle : Traffic
idle = record {
  metrics = record { in_flight = pos 0; requests = []; durations = [] };
  running = 0;
  answered = 0;
  panics = 0;
}

-- The gauge counts the requests that run and those that have panicked; the counter and the
-- histogram count those that have returned.
pub record Counts (t : Traffic) : Type 0 where
  pub gauge : t.metrics.in_flight ≡ pos (t.running + t.panics)
  pub counter : total t.metrics.requests ≡ t.answered
  pub histogram : length t.metrics.durations ≡ t.answered

module _ {W : Type 0} (clock : W → ℕ) where
  pub data Step : Traffic → Traffic → Type 0 where
    arrive :
        (t : Traffic) → Step t (record t { metrics = enter t.metrics; running = t.running + 1 })
    finish :
        (t : Traffic) (others start : ℕ) (r : Served) (w : W)
        → t.running ≡ suc others
        → Step t (record t {
          metrics = (after_next clock start (returned r, t.metrics, w)).1;
          running = others;
          answered = t.answered + 1;
        })
    crash :
        (t : Traffic) (others start : ℕ) (w : W)
        → t.running ≡ suc others
        → Step t (record t {
          metrics = (after_next clock start (panicked, t.metrics, w)).1;
          running = others;
          panics = t.panics + 1;
        })

  pub data Reach : Traffic → Type 0 where
    here : Reach idle
    next : {s t : Traffic} → Reach s → Step s t → Reach t

  total-after_next :
      (start : ℕ) (r : Served) (m : HttpMetrics) (w : W)
      → total (after_next clock start (returned r, m, w)).1.requests ≡ total m.requests + 1
  unfolding after_next leave
  total-after_next start r m w = total-inc _ m.requests

  Step-Counts : {s t : Traffic} → Step s t → Counts s → Counts t
  unfolding enter after_next leave ◌+ℤ◌
  Step-Counts (arrive t) c = ground (arith, c.gauge, c.counter, c.histogram)
  Step-Counts (finish t others start r w e) c = record {
    gauge = ground (arith, c.gauge);
    counter = total-after_next start r t.metrics w ∙ ap (λ n. n + 1) c.counter;
    histogram = ground (arith, c.histogram);
  }
  Step-Counts (crash t others start w e) c = ground (arith, c.gauge, c.counter, c.histogram)

  -- However requests overlap, the gauge of requests in flight counts those that run and those that
  -- have panicked, and the counter and the histogram count those that have returned.
  pub Reach-Counts : {t : Traffic} → Reach t → Counts t
  Reach-Counts here = record { gauge = refl; counter = refl; histogram = refl }
  Reach-Counts (next r st) = Step-Counts st (Reach-Counts r)
