-- ===== src/Base/Lists.antt =====
-- Lists over the native numbers: length, last element, and how often a number occurs.
use Prim.Native.Nat.{ℕ, suc, ◌+◌, ◌≤◌}
use mathlib.Core.Logic.{◌≢◌, inl, inr}
use mathlib.Core.Path.{◌≡◌, refl}
use mathlib.Core.List.{List, [], ◌∷◌, ◌++◌}
use mathlib.Core.Option.{Option, none, some}
use native.Mathlib.Omega.{arith}
use simple_await.Base.Tests.{◌==◌, bit, if◌then◌else◌, Bool-cases}

module _ {ℓ} {A : Type ℓ} where
  abbrev pub length : List A → ℕ
  length [] = 0
  length (x ∷ xs) = suc (length xs)

  abbrev pub get_last? : List A → Option A
  get_last? [] = none
  get_last? (x ∷ []) = some x
  get_last? (x ∷ y ∷ xs) = get_last? (y ∷ xs)

  pub length-append : (xs ys : List A) → length (xs ++ ys) ≡ length xs + length ys
  length-append [] ys = omega arith
  length-append (x ∷ xs) ys = omega (arith, length-append xs ys)

  pub get_last?-append : (xs : List A) (x : A) → get_last? (xs ++ x ∷ []) ≡ some x
  get_last?-append [] x = refl
  get_last?-append (y ∷ []) x = refl
  get_last?-append (y ∷ z ∷ xs) x = get_last?-append (z ∷ xs) x

-- How often `i` stands in a list. A list of slots is distinct, and has exactly the slots that
-- satisfy a test, when `count i` is that test's bit.
abbrev pub count : ℕ → List ℕ → ℕ
count i [] = 0
count i (x ∷ xs) = bit (i == x) + count i xs

pub count-append : (i : ℕ) (xs ys : List ℕ) → count i (xs ++ ys) ≡ count i xs + count i ys
count-append i [] ys = omega arith
count-append i (x ∷ xs) ys = omega (arith, count-append i xs ys)

-- The list without the first `f`.
abbrev pub remove : ℕ → List ℕ → List ℕ
remove f [] = []
remove f (x ∷ l) = if x == f then l else x ∷ remove f l

pub count-remove : (f i : ℕ) (l : List ℕ) → i ≢ f → count i (remove f l) ≡ count i l
count-remove f i [] h = refl
count-remove f i (x ∷ l) h = ground (arith, count-remove f i l h)

pub count-remove_self : (f : ℕ) (l : List ℕ) → count f l ≤ 1 → count f (remove f l) ≡ 0
count-remove_self f [] h = ground arith
count-remove_self f (x ∷ l) h = elim (Bool-cases (x == f)) [
  | inl e ↦ rw e (ground arith)
  | inr e ↦ rw e (ground (arith, count-remove_self f l (ground arith)))
]
