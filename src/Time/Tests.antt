-- ===== src/Time/Tests.antt =====
-- The theorems on the time arithmetic, at concrete times.
use simple_await.Base.{◌+◌, ◌*◌, ◌^◌, ◌<◌, ◌≡◌, ◌⊎◌, true, false, [], ◌∷◌, map, ◌%◌, ◌-◌, arith}
use simple_await.Error.{deadline_overflow}
use simple_await.Time.{compute_deadline, extend_all, platform_timeout_ticks}
use simple_await.Time.Deadline.{compute_deadline_exact}
use simple_await.Time.Extender.{at_time, extend_all_exact}
use simple_await.Time.Ticks.{RoundsUp, platform_timeout_ticks-RoundsUp}

compute_deadline_exact_example :
    ((10 + 5 < 2 ^ 64) × (compute_deadline 10 5 0 ≡ (true, 10 + 5, [])))
    ⊎ ((¬ (10 + 5 < 2 ^ 64)) × (compute_deadline 10 5 0 ≡ (false, 0, deadline_overflow ∷ [])))
compute_deadline_exact_example = compute_deadline_exact 10 5 0 (omega arith) (omega arith)

-- The second sample is taken after the clock has wrapped.
extend_all_exact_example :
    extend_all (at_time 4294967000) (map (λ u. u % 2 ^ 32) (4294967290 ∷ 4294967300 ∷ []))
    ≡ 4294967290 ∷ 4294967300 ∷ []
extend_all_exact_example =
    extend_all_exact 4294967000 (4294967290 ∷ 4294967300 ∷ [])
      (omega arith, omega arith, omega arith, (omega arith, omega arith, omega arith, tt))

platform_timeout_ticks-RoundsUp_at_work :
    RoundsUp ((5001 - 1) * 100) 4294967294 (platform_timeout_ticks 1 5001 100 4294967294)
platform_timeout_ticks-RoundsUp_at_work =
    platform_timeout_ticks-RoundsUp 1 5001 100 4294967294 (omega arith) (omega arith) (omega arith)
      (omega arith) (omega arith)
