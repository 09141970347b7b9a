-- ===== src/Base/Indexed.antt =====
-- Lists whose elements are known by their place: look-up, change at a place, and sums.
use rtc_simple_server.Base.Tests.{◌==◌, if◌then◌else◌}
use rtc_simple_server.Base.Lists.{length}
use Prim.Native.Nat.{ℕ, zero, suc, ◌+◌}
use mathlib.Core.Path.{◌≡◌, refl}
use mathlib.Core.Bool.{false}
use mathlib.Core.Option.{Option, none, some}
use mathlib.Core.List.{List, [], ◌∷◌, ◌++◌}
use native.Mathlib.Omega.{arith}

module _ {ℓ} {A : Type ℓ} where
  unfoldable pub get_elem? : List A → ℕ → Option A
  get_elem? [] i = none
  get_elem? (x ∷ xs) zero = some x
  get_elem? (x ∷ xs) (suc i) = get_elem? xs i

  unfoldable pub modify : List A → ℕ → (A → A) → List A
  modify [] i f = []
  modify (x ∷ xs) zero f = f x ∷ xs
  modify (x ∷ xs) (suc i) f = x ∷ modify xs i f

  pub get_elem?-modify_other :
      (xs : List A) (i j : ℕ) (f : A → A)
      → (i == j) ≡ false
      → get_elem? (modify xs i f) j ≡ get_elem? xs j
  unfolding get_elem? modify
  get_elem?-modify_other [] i j f h = refl
  get_elem?-modify_other (y ∷ ys) zero zero f h = cc h
  get_elem?-modify_other (y ∷ ys) zero (suc j) f h = refl
  get_elem?-modify_other (y ∷ ys) (suc i) zero f h = refl
  get_elem?-modify_other (y ∷ ys) (suc i) (suc j) f h =
      get_elem?-modify_other ys i j f (ground (arith, h))

  pub get_elem?-append :
      (xs : List A) (y : A) (i : ℕ)
      → get_elem? (xs ++ (y ∷ [])) i ≡ (if i == length xs then some y else get_elem? xs i)
  unfolding get_elem?
  get_elem?-append [] y zero = refl
  get_elem?-append [] y (suc i) = ground arith
  get_elem?-append (x ∷ xs) y zero = ground arith
  get_elem?-append (x ∷ xs) y (suc i) = ground (arith, get_elem?-append xs y i)

  -- The sum of a weight over a list.
  unfoldable pub total : (A → ℕ) → List A → ℕ
  total w [] = 0
  total w (x ∷ xs) = w x + total w xs

  pub total-append : (w : A → ℕ) (xs : List A) (y : A) → total w (xs ++ (y ∷ [])) ≡ total w xs + w y
  unfolding total
  total-append w [] y = omega arith
  total-append w (x ∷ xs) y = omega (arith, total-append w xs y)

  pub total-modify :
      (w : A → ℕ) (xs : List A) (i : ℕ) (f : A → A) (x : A) (k : ℕ)
      → get_elem? xs i ≡ some x
      → w (f x) ≡ k + w x
      → total w (modify xs i f) ≡ k + total w xs
  unfolding total get_elem? modify
  total-modify w [] i f x k h e = cc h
  total-modify w (y ∷ ys) zero f x k h e = ground (arith, h, e)
  total-modify w (y ∷ ys) (suc i) f x k h e = omega (arith, total-modify w ys i f x k h e)

  -- A change that keeps the weight of each element.
  pub total-modify_kept :
      (w : A → ℕ) (xs : List A) (i : ℕ) (f : A → A)
      → ((x : A) → w (f x) ≡ w x)
      → total w (modify xs i f) ≡ total w xs
  unfolding total modify
  total-modify_kept w [] i f h = refl
  total-modify_kept w (x ∷ xs) zero f h = omega (arith, h x)
  total-modify_kept w (x ∷ xs) (suc i) f h = omega (arith, total-modify_kept w xs i f h)

  pub total-eq :
      (w v : A → ℕ) (xs : List A)
      → ((i : ℕ) (x : A) → get_elem? xs i ≡ some x → w x ≡ v x)
      → total w xs ≡ total v xs
  unfolding total get_elem?
  total-eq w v [] h = refl
  total-eq w v (x ∷ xs) h = omega (arith, h 0 x refl, total-eq w v xs (λ i y e. h (suc i) y e))
