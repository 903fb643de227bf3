-- ===== src/Scheduler/Acquire.antt =====
-- `acquire_slot` of scheduler.h: which slot it takes, and when it fails.
use simple_await.Base.{
  ℕ, zero, suc, ◌+◌, ◌≤◌, ◌<◌, ◌≡◌, ◌≢◌, refl, Bool, true, false, Option, none, some, ◌⊎◌, inl, inr,
  arith, not, ◌&&◌, ◌==◌, Bool-cases,
}
use mathlib.Core.Path.{subst}
use native.Mathlib.Decide.{ℕ_discrete}
use simple_await.Time.{uint32_max}
use simple_await.World.{free, completed, is_free, is_completed, Scheduler}
use simple_await.Scheduler.{find_from, bump, acquire_slot}

-- The search returns the first index that passes, and fails only if none does.
abbrev FirstPass : ℕ → ℕ → (ℕ → Bool) → Option ℕ → Type 0
FirstPass k i test none = (j : ℕ) → i ≤ j → j < i + k → test j ≡ false
FirstPass k i test (some x) =
    (i ≤ x) × (x < i + k) × (test x ≡ true) × ((j : ℕ) → i ≤ j → j < x → test j ≡ false)

FirstPass-later :
    (k i : ℕ) (test : ℕ → Bool) (o : Option ℕ)
    → test i ≡ false
    → FirstPass k (suc i) test o
    → FirstPass (suc k) i test o
FirstPass-later k i test none h f = λ j l u. elim (ℕ_discrete i j) [
  | yes e ↦ subst (λ t. test t ≡ false) e h
  | no ne ↦ f j (omega arith) (omega arith)
]
FirstPass-later k i test (some x) h f = (
  omega (arith, f.0),
  omega (arith, f.1),
  f.2,
  λ j l u. elim (ℕ_discrete i j) [
    | yes e ↦ subst (λ t. test t ≡ false) e h
    | no ne ↦ f.3 j (omega arith) (omega arith)
  ],
)

find_from-FirstPass : (k i : ℕ) (test : ℕ → Bool) → FirstPass k i test (find_from k i test)
unfolding find_from
find_from-FirstPass zero i test = λ j l u. absurd (omega arith)
find_from-FirstPass (suc k) i test = elim (Bool-cases (test i)) [
  | inl h ↦ rw h (omega arith, omega arith, h, λ j l u. absurd (omega arith))
  | inr h ↦
      rw h
        (FirstPass-later k i test (find_from k (suc i) test) h (find_from-FirstPass k (suc i) test))
]

-- A free slot, or a completed one, whose generation can still grow.
abbrev pub free_usable : Scheduler → ℕ → Bool
free_usable s i = is_free (s.slots i).state && not ((s.slots i).generation == uint32_max)

abbrev pub completed_usable : Scheduler → ℕ → Bool
completed_usable s i = is_completed (s.slots i).state && not ((s.slots i).generation == uint32_max)

-- Slot `x` was taken: it is the lowest usable free slot or, where there is none, the lowest usable
-- completed one, and nothing but its generation changed.
pub record Took (n : ℕ) (s : Scheduler) (x : ℕ) (t : Scheduler) : Type 0 where
  pub below : x < n
  pub fresh : (s.slots x).generation ≢ uint32_max
  pub bumped : t ≡ bump x s
  pub lowest :
      (((s.slots x).state ≡ free) × ((j : ℕ) → j < x → free_usable s j ≡ false))
      ⊎ (((s.slots x).state ≡ completed)
          × ((j : ℕ) → j < n → free_usable s j ≡ false)
          × ((j : ℕ) → j < x → completed_usable s j ≡ false))

-- No slot could be taken, and nothing changed.
pub record Exhausted (n : ℕ) (s t : Scheduler) : Type 0 where
  pub unchanged : t ≡ s
  pub no_free : (j : ℕ) → j < n → free_usable s j ≡ false
  pub no_completed : (j : ℕ) → j < n → completed_usable s j ≡ false

-- What `acquire_slot` returns, on every branch.
abbrev pub AcquireResult : ℕ → Scheduler → Option ℕ × Scheduler → Type 0
AcquireResult n s (none, t) = Exhausted n s t
AcquireResult n s (some x, t) = Took n s x t

-- `acquire_slot` takes the lowest free slot whose generation is below the maximum; where there is
-- none, the lowest completed one; and where there is none either, it takes none and changes nothing.
-- A slot taken has its generation bumped, and nothing else changes.
pub acquire_slot-AcquireResult : (n : ℕ) (s : Scheduler) → AcquireResult n s (acquire_slot n s)
unfolding acquire_slot
acquire_slot-AcquireResult n s =
    first (find_from n 0 (free_usable s)) refl (find_from-FirstPass n 0 (free_usable s))
  where
    second :
        (o : Option ℕ)
        → find_from n 0 (free_usable s) ≡ none
        → ((j : ℕ) → 0 ≤ j → j < 0 + n → free_usable s j ≡ false)
        → find_from n 0 (completed_usable s) ≡ o
        → FirstPass n 0 (completed_usable s) o
        → AcquireResult n s (acquire_slot n s)
    second none p g q f =
        rw (p, q, acquire_slot)
          (record {
            unchanged = refl;
            no_free = λ j l. g j (omega arith) (omega arith);
            no_completed = λ j l. f j (omega arith) (omega arith);
          })
    second (some x) p g q f =
        rw (p, q, acquire_slot)
          (record {
            below = omega (arith, f.1);
            fresh = ground (arith, f.2);
            bumped = refl;
            lowest = inr (
              ground (arith, f.2),
              (λ j l. g j (omega arith) (omega arith)),
              (λ j l. f.3 j (omega arith) l),
            );
          })

    first :
        (o : Option ℕ)
        → find_from n 0 (free_usable s) ≡ o
        → FirstPass n 0 (free_usable s) o
        → AcquireResult n s (acquire_slot n s)
    first none p f =
        second (find_from n 0 (completed_usable s)) p f refl
          (find_from-FirstPass n 0 (completed_usable s))
    first (some x) p f =
        rw (p, acquire_slot)
          (record {
            below = omega (arith, f.1);
            fresh = ground (arith, f.2);
            bumped = refl;
            lowest = inl (ground (arith, f.2), (λ j l. f.3 j (omega arith) l));
          })
