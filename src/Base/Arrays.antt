-- ===== src/Base/Arrays.antt =====
-- Arrays of structs as functions on indices, point updates, and the number of indices below a
-- bound that satisfy a test.
use Prim.Native.Nat.{ℕ, zero, suc, ◌+◌, ◌≤◌, ◌<◌}
use mathlib.Core.Path.{◌≡◌, refl, ap, subst, sym, ◌∙◌}
use mathlib.Core.Logic.{◌≢◌}
use mathlib.Core.Bool.{Bool, true, false}
use mathlib.Core.List.{List, [], ◌∷◌}
use simple_await.Base.Lists.{count, length}
use native.Mathlib.Omega.{arith}
use native.Mathlib.Decide.{ℕ_discrete, dec_lt}
use simple_await.Base.Tests.{◌==◌, bit, ==_iff, ==_false, if◌then◌else◌}

abbrev pub update {ℓ} : {A : Type ℓ} → (ℕ → A) → ℕ → A → ℕ → A
update f i v j = if j == i then v else f j

pub update_self {ℓ} : {A : Type ℓ} (f : ℕ → A) (i : ℕ) (v : A) → update f i v i ≡ v
update_self f i v = ground arith

pub update_ne {ℓ} : {A : Type ℓ} (f : ℕ → A) (i j : ℕ) (v : A) → j ≢ i → update f i v j ≡ f j
update_ne f i j v h = ground arith

-- How many indices below `n` pass the test.
abbrev pub tally : ℕ → (ℕ → Bool) → ℕ
tally zero p = 0
tally (suc n) p = bit (p n) + tally n p

pub tally-le : (n : ℕ) (p : ℕ → Bool) → tally n p ≤ n
tally-le zero p = omega arith
tally-le (suc n) p = ground (arith, tally-le n p)

-- Two tests that agree below `n` but for `x`.
pub tally_agree : (n : ℕ) (p q : ℕ → Bool) → ((i : ℕ) → i < n → p i ≡ q i) → tally n p ≡ tally n q
tally_agree zero p q h = refl
tally_agree (suc n) p q h =
    ground (arith, h n (omega arith), tally_agree n p q (λ i l. h i (omega arith)))

pub tally_change :
    (n x : ℕ) (p q : ℕ → Bool)
    → x < n
    → ((i : ℕ) → i ≢ x → p i ≡ q i)
    → tally n q + bit (p x) ≡ tally n p + bit (q x)
tally_change zero x p q l h = elim l [ ]
tally_change (suc n) x p q l h = elim (ℕ_discrete n x) [
  | yes e ↦
      subst (λ y. bit (q n) + tally n q + bit (p y) ≡ bit (p n) + tally n p + bit (q y)) e
        (omega (arith, tally_agree n p q (λ i k. h i (omega arith))))
  | no ne ↦ omega (arith, ap bit (h n ne), tally_change n x p q (omega arith) h)
]

-- The sum of a function below `n`.
abbrev pub total : ℕ → (ℕ → ℕ) → ℕ
total zero f = 0
total (suc n) f = f n + total n f

total-eq : (n : ℕ) (f g : ℕ → ℕ) → ((i : ℕ) → i < n → f i ≡ g i) → total n f ≡ total n g
total-eq zero f g h = refl
total-eq (suc n) f g h = omega (arith, h n (omega arith), total-eq n f g (λ i l. h i (omega arith)))

total-zero : (n : ℕ) (f : ℕ → ℕ) → ((i : ℕ) → i < n → f i ≡ 0) → total n f ≡ 0
total-zero zero f h = refl
total-zero (suc n) f h = omega (arith, h n (omega arith), total-zero n f (λ i l. h i (omega arith)))

total-add : (n : ℕ) (f g : ℕ → ℕ) → total n (λ i. f i + g i) ≡ total n f + total n g
total-add zero f g = refl
total-add (suc n) f g = omega (arith, total-add n f g)

total-single : (n x : ℕ) → x < n → total n (λ i. bit (i == x)) ≡ 1
total-single zero x h = elim h [ ]
total-single (suc n) x h = elim (ℕ_discrete n x) [
  | yes e ↦ ground (arith, total-zero n (λ i. bit (i == x)) (λ i l. ground arith))
  | no ne ↦ ground (arith, total-single n x (omega arith))
]

total-tally : (n : ℕ) (p : ℕ → Bool) → total n (λ i. bit (p i)) ≡ tally n p
total-tally zero p = refl
total-tally (suc n) p = omega (arith, total-tally n p)

total-count :
    (n : ℕ) (r : List ℕ) → ((i : ℕ) → n ≤ i → count i r ≡ 0) → total n (λ i. count i r) ≡ length r
total-count n [] h = total-zero n (λ i. 0) (λ i l. refl)
total-count n (x ∷ r) h = omega (
  arith,
  total-add n (λ i. bit (i == x)) (λ i. count i r),
  total-single n x (inside (dec_lt x n)),
  total-count n r (λ i l. omega (arith, h i l)),
)
  where
    inside : Dec (x < n) → x < n
    inside (yes l) = l
    inside (no g) = absurd (ground (arith, h x (omega arith)))

-- A list that has each slot as often as the test passes, all below `n`, is as long as the number
-- of indices that pass.
pub length-eq-tally :
    (n : ℕ) (r : List ℕ) (p : ℕ → Bool)
    → ((i : ℕ) → count i r ≡ bit (p i))
    → ((i : ℕ) → n ≤ i → p i ≡ false)
    → length r ≡ tally n p
length-eq-tally n r p member beyond =
    sym (total-count n r (λ i l. member i ∙ ap bit (beyond i l)))
    ∙ total-eq n (λ i. count i r) (λ i. bit (p i)) (λ i l. member i)
    ∙ total-tally n p

-- What holds at the updated index and at all others holds of both updated arrays.
pub update_each {ℓ κ μ} :
    {A : Type ℓ} {B : Type κ} (P : ℕ → A → B → Type μ) (f : ℕ → A) (g : ℕ → B) (e : ℕ) (a : A)
    (b : B)
    → P e a b
    → ((d : ℕ) → d ≢ e → P d (f d) (g d))
    → (d : ℕ) → P d (update f e a d) (update g e b d)
update_each P f g e a b here there d =
    (elim (d == e) as (λ t. (d == e) ≡ t → P d (if t then a else f d) (if t then b else g d)) [
      | true ↦ λ h. subst (λ k. P k a b) (sym ((==_iff d e).0 h)) here
      | false ↦ λ h. there d (==_false d e h)
    ])
      refl

-- An update that leaves what `g` reads.
pub update_same {ℓ κ} :
    {A : Type ℓ} {B : Type κ} (g : A → B) (f : ℕ → A) (a : ℕ) (v : A)
    → g v ≡ g (f a)
    → (i : ℕ) → g (update f a v i) ≡ g (f i)
update_same g f a v e i =
    (elim (i == a) as (λ t. (i == a) ≡ t → g (if t then v else f i) ≡ g (f i)) [
      | true ↦ λ h. e ∙ ap (λ k. g (f k)) (sym ((==_iff i a).0 h))
      | false ↦ λ h. refl
    ])
      refl
