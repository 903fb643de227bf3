-- ===== src/Time/Ticks.antt =====
-- The rounding of detail/platform_idle.h.
use simple_await.Base.{
  ℕ, ◌+◌, ◌-◌, ◌*◌, ◌/◌, ◌%◌, ◌^◌, ◌<◌, ◌≤◌, ◌≡◌, ◌⊎◌, arith, ap, bit, not, ltb, ◌==◌,
  if◌then◌else◌,
}
use native.Mathlib.Nat.{div-lt_iff_lt-mul, le-div_iff_mul-le, mul-le-mul_right}
use native.Mathlib.Decide.{dec_lt}
use simple_await.Time.{platform_timeout_ticks}

-- The remaining time is a number of whole seconds and a fraction.
scaled_split : (r tps : ℕ) → r * tps ≡ (r / 1000000 * tps) * 1000000 + r % 1000000 * tps
scaled_split r tps =
    let e : r ≡ r / 1000000 * 1000000 + r % 1000000 = omega arith in
    omega (arith, ap (λ (t : ℕ). t * tps) e)

-- What a timeout of `ticks` must satisfy for `scaled` ticks of 1 / 1000000: it is within the limit,
-- less than one tick too long, and not too short unless it is the limit.
abbrev pub RoundsUp : ℕ → ℕ → ℕ → Type 0
RoundsUp scaled limit ticks =
    (ticks ≤ limit)
    × (ticks * 1000000 < scaled + 1000000)
    × ((scaled ≤ ticks * 1000000) ⊎ (ticks ≡ limit))

-- The sum of whole and fractional ticks, cut at the limit.
cut_sum :
    (whole fraction limit : ℕ)
    → whole ≤ limit
    → RoundsUp (whole * 1000000 + fraction) limit (
        let up = fraction / 1000000 + bit (not (fraction % 1000000 == 0)) in
        if ltb (limit - whole) up then limit else whole + up)
cut_sum whole fraction limit h = ground arith

-- With a future deadline, a positive tick rate whose product with a second fits 64 bits, and a
-- positive limit that fits 64 bits, the timeout is within the limit, ends less than one tick after
-- the deadline, and ends before it only when it is the limit.
pub platform_timeout_ticks-RoundsUp :
    (now deadline tps limit : ℕ)
    → now < deadline
    → 0 < tps
    → tps * 1000000 < 2 ^ 64
    → 0 < limit
    → limit < 2 ^ 64
    → RoundsUp ((deadline - now) * tps) limit (platform_timeout_ticks now deadline tps limit)
unfolding platform_timeout_ticks
platform_timeout_ticks-RoundsUp now deadline tps limit later rate fits positive word =
    elim (dec_lt (limit / tps) ((deadline - now) / 1000000)) [
      | yes p ↦ ground (arith, scaled_split (deadline - now) tps, over p)
      | no p ↦ ground (
        arith,
        scaled_split (deadline - now) tps,
        under p,
        cut_sum ((deadline - now) / 1000000 * tps) ((deadline - now) % 1000000 * tps) limit,
        small,
      )
    ]
  where
    over : limit / tps < (deadline - now) / 1000000 → limit < (deadline - now) / 1000000 * tps
    over p = (div-lt_iff_lt-mul rate).0 p

    under : ¬ (limit / tps < (deadline - now) / 1000000) → (deadline - now) / 1000000 * tps ≤ limit
    under p = (le-div_iff_mul-le rate).0 (omega arith)

    small : (deadline - now) % 1000000 * tps < 2 ^ 64
    small = omega (
      arith,
      mul-le-mul_right tps (let l : (deadline - now) % 1000000 ≤ 1000000 = omega arith in l),
    )
