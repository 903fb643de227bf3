-- ===== src/Time/Extender.antt =====
-- The 32-bit clock extender: while successive samples are less than 2 ^ 32 apart it returns the
-- 64-bit time.
use simple_await.Base.{ℕ, ◌+◌, ◌/◌, ◌%◌, ◌^◌, ◌<◌, ◌≤◌, ◌≡◌, refl, List, [], ◌∷◌, map, arith, ap}
use simple_await.Time.{Micros32Extender, extend, extend_all}

-- The extender after it has seen the time `t`.
abbrev pub at_time : ℕ → Micros32Extender
at_time t = record { last = t % 2 ^ 32; wraps = t / 2 ^ 32 }

-- Times that never go back, advance by less than 2 ^ 32, and fit 64 bits.
abbrev pub Sampled : ℕ → List ℕ → Type 0
Sampled t [] = Unit {0}
Sampled t (u ∷ us) = (t ≤ u) × (u < t + 2 ^ 32) × (u < 2 ^ 64) × Sampled u us

extend_lem :
    (t u : ℕ)
    → t ≤ u
    → u < t + 2 ^ 32
    → u < 2 ^ 64
    → extend (at_time t) (u % 2 ^ 32) ≡ (u, at_time u)
unfolding extend
extend_lem t u h k l = ground arith

-- Fed with the low words of times that never go back, advance by less than 2 ^ 32 and fit 64 bits, the
-- extender returns the times.
pub extend_all_exact :
    (t : ℕ) (us : List ℕ) → Sampled t us → extend_all (at_time t) (map (λ u. u % 2 ^ 32) us) ≡ us
unfolding extend_all
extend_all_exact t [] h = refl
extend_all_exact t (u ∷ us) h =
    rw (extend_lem t u h.0 h.1 h.2) (ap (◌∷◌ u) (extend_all_exact u us h.3))
