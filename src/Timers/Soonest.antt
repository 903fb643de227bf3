-- ===== src/Timers/Soonest.antt =====
-- The inner loop of `process_due_timers` in scheduler.h finds the due timer with the least deadline
-- and, among equals, the lowest slot.
use simple_await.Base.{
  ℕ, zero, suc, ◌+◌, ◌≤◌, ◌<◌, ◌≡◌, ◌≢◌, refl, sym, true, false, Option, none, some, ◌⊎◌, inl, inr,
  arith, subst, ◌&&◌, Bool-cases,
}
use native.Mathlib.Decide.{ℕ_discrete}
use simple_await.World.{Slots}
use simple_await.Timers.{is_due, beats, soonest_from}

-- A due slot wakes before another: by its deadline, then by its index.
abbrev pub Before : Slots → ℕ → ℕ → Type 0
Before slots x y =
    ((slots x).deadline_us < (slots y).deadline_us)
    ⊎ (((slots x).deadline_us ≡ (slots y).deadline_us) × (x < y))

-- The best of the due slots from `i` up to `i + k` and of the one found before them.
abbrev Best : ℕ → ℕ → Slots → ℕ → Option ℕ → Option ℕ → Type 0
Best k i slots now found none =
    (found ≡ none) × ((j : ℕ) → i ≤ j → j < i + k → is_due slots now j ≡ false)
Best k i slots now found (some x) =
    (((found ≡ some x) ⊎ ((i ≤ x) × (x < i + k) × (is_due slots now x ≡ true))))
    × ((j : ℕ) → i ≤ j → j < i + k → is_due slots now j ≡ true → j ≢ x → Before slots x j)
    × ((b : ℕ) → found ≡ some b → b ≢ x → Before slots x b)

some_eq : {a b : ℕ} → some a ≡ some b → a ≡ b
some_eq e = ground arith

Before-of_le :
    (slots : Slots) (x y : ℕ)
    → (slots x).deadline_us ≤ (slots y).deadline_us
    → x < y
    → Before slots x y
Before-of_le slots x y h l = ground arith

Before-later :
    (slots : Slots) (x b i : ℕ)
    → Before slots x b
    → (slots b).deadline_us ≤ (slots i).deadline_us
    → b < i
    → Before slots x i
Before-later slots x b i h l u = ground arith

Before-lt :
    (slots : Slots) (x i b : ℕ)
    → Before slots x i
    → (slots i).deadline_us < (slots b).deadline_us
    → Before slots x b
Before-lt slots x i b h l = ground arith

-- One more slot `i` before those from `suc i` on.
Best-keep :
    (k i : ℕ) (slots : Slots) (now : ℕ) (found o : Option ℕ)
    → ((b : ℕ) → found ≡ some b → b < i)
    → (is_due slots now i ≡ false)
      ⊎ ((b : ℕ) × (found ≡ some b) × ((slots b).deadline_us ≤ (slots i).deadline_us))
    → Best k (suc i) slots now found o
    → Best (suc k) i slots now found o
Best-keep k i slots now found none low (inl idle) f = (
  f.0,
  λ j l u. elim (ℕ_discrete i j) [
    | yes e ↦ subst (λ t. is_due slots now t ≡ false) e idle
    | no ne ↦ f.1 j (omega arith) (omega arith)
  ],
)
Best-keep k i slots now found none low (inr (b, e, le)) f = absurd (ground (arith, f.0))
Best-keep k i slots now found (some x) low skip f = (
  place f.0,
  (λ j l u d ne. elim (ℕ_discrete i j) [
    | yes e ↦ subst (λ t. is_due slots now t ≡ true → t ≢ x → Before slots x t) e here d ne
    | no other ↦ f.1 j (omega arith) (omega arith) d ne
  ]),
  f.2,
)
  where
    place :
        (found ≡ some x) ⊎ ((suc i ≤ x) × (x < suc i + k) × (is_due slots now x ≡ true))
        → (found ≡ some x) ⊎ ((i ≤ x) × (x < i + suc k) × (is_due slots now x ≡ true))
    place (inl e) = inl e
    place (inr (a, b, c)) = inr (omega arith, omega arith, c)

    by_found :
        (is_due slots now i ≡ false)
          ⊎ ((b : ℕ) × (found ≡ some b) × ((slots b).deadline_us ≤ (slots i).deadline_us))
        → is_due slots now i ≡ true
        → Before slots x i
    by_found (inl idle) d = cc
    by_found (inr (b, e, le)) d = elim (ℕ_discrete b x) [
      | yes same ↦
          Before-of_le slots x i
            (subst (λ t. (slots t).deadline_us ≤ (slots i).deadline_us) same le)
            (subst (λ t. t < i) same (low b e))
      | no ne ↦ Before-later slots x b i (f.2 b e ne) le (low b e)
    ]

    here : is_due slots now i ≡ true → i ≢ x → Before slots x i
    here d ne = by_found skip d

Best-take :
    (k i : ℕ) (slots : Slots) (now : ℕ) (found o : Option ℕ)
    → ((b : ℕ) → found ≡ some b → b < i)
    → is_due slots now i ≡ true
    → beats slots i found ≡ true
    → Best k (suc i) slots now (some i) o
    → Best (suc k) i slots now found o
unfolding beats
Best-take k i slots now found none low due wins f = absurd (ground (arith, f.0))
Best-take k i slots now found (some x) low due wins f = (
  inr (place f.0),
  (λ j l u d ne. elim (ℕ_discrete i j) [
    | yes e ↦ subst (λ t. t ≢ x → Before slots x t) e (λ h. f.2 i refl h) ne
    | no other ↦ f.1 j (omega arith) (omega arith) d ne
  ]),
  λ b e ne. elim (ℕ_discrete i x) [
    | yes same ↦ subst (λ t. Before slots t b) same (inl (beaten b e))
    | no differ ↦ Before-lt slots x i b (f.2 i refl differ) (beaten b e)
  ],
)
  where
    place :
        (some i ≡ some x) ⊎ ((suc i ≤ x) × (x < suc i + k) × (is_due slots now x ≡ true))
        → (i ≤ x) × (x < i + suc k) × (is_due slots now x ≡ true)
    place (inl e) =
        subst (λ t. (i ≤ t) × (t < i + suc k) × (is_due slots now t ≡ true)) (some_eq e)
          (omega arith, omega arith, due)
    place (inr (a, b, c)) = (omega arith, omega arith, c)

    beaten : (b : ℕ) → found ≡ some b → (slots i).deadline_us < (slots b).deadline_us
    beaten b e = ground (arith, wins)

skips :
    (slots : Slots) (now i : ℕ) (found : Option ℕ)
    → (is_due slots now i && beats slots i found) ≡ false
    → (is_due slots now i ≡ false)
      ⊎ ((b : ℕ) × (found ≡ some b) × ((slots b).deadline_us ≤ (slots i).deadline_us))
unfolding beats
skips slots now i none h = inl (ground arith)
skips slots now i (some b) h = elim (Bool-cases (is_due slots now i)) [
  | inl due ↦ inr (b, refl, ground arith)
  | inr idle ↦ inl idle
]

-- The search, from the slot found so far.
soonest_from-Best :
    (k i : ℕ) (slots : Slots) (now : ℕ) (found : Option ℕ)
    → ((b : ℕ) → found ≡ some b → b < i)
    → Best k i slots now found (soonest_from k i slots now found)
unfolding soonest_from
soonest_from-Best zero i slots now found low = start found
  where
    start : (o : Option ℕ) → Best zero i slots now o o
    start none = (refl, λ j l u. absurd (omega arith))
    start (some x) =
        (inl refl, (λ j l u. absurd (omega arith)), λ b e ne. absurd (ne (sym (some_eq e))))
soonest_from-Best (suc k) i slots now found low =
    elim (Bool-cases (is_due slots now i && beats slots i found)) [
      | inl take ↦ rw take (
          Best-take k i slots now found _ low (both take).0 (both take).1
            (soonest_from-Best k (suc i) slots now (some i) (λ b e. ground arith)))
      | inr keep ↦ rw keep (
          Best-keep k i slots now found _ low (skips slots now i found keep)
            (soonest_from-Best k (suc i) slots now found (λ b e. omega (arith, low b e))))
    ]
  where
    both :
        (is_due slots now i && beats slots i found) ≡ true
        → (is_due slots now i ≡ true) × (beats slots i found ≡ true)
    both e = ground arith

-- What the whole search returns: nothing if no timer is due, and otherwise the due timer that comes
-- before every other one.
abbrev pub Soonest : ℕ → Slots → ℕ → Option ℕ → Type 0
Soonest n slots now none = (j : ℕ) → j < n → is_due slots now j ≡ false
Soonest n slots now (some x) =
    (x < n)
    × (is_due slots now x ≡ true)
    × ((j : ℕ) → j < n → is_due slots now j ≡ true → j ≢ x → Before slots x j)

whole_search :
    (n : ℕ) (slots : Slots) (now : ℕ) (o : Option ℕ)
    → Best n 0 slots now none o
    → Soonest n slots now o
whole_search n slots now none f = λ j l. f.1 j (omega arith) (omega arith)
whole_search n slots now (some x) f =
    (ground (arith, f.0), ground (arith, f.0), λ j l d ne. f.1 j (omega arith) (omega arith) d ne)

pub soonest_from-Soonest :
    (n : ℕ) (slots : Slots) (now : ℕ) → Soonest n slots now (soonest_from n 0 slots now none)
soonest_from-Soonest n slots now =
    whole_search n slots now _ (soonest_from-Best n 0 slots now none (λ b e. absurd (ground arith)))
