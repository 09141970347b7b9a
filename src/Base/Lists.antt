-- ===== src/Base/Lists.antt =====
-- Lists measured and cut by native numbers, and sets of numbers as lists.
use Prim.Native.Nat.{ℕ, zero, suc, ◌+◌, ◌-◌, min}
use mathlib.Core.Path.{◌≡◌, refl, ap}
use mathlib.Core.Bool.{Bool, true, false, ◌||◌}
use mathlib.Core.List.{List, [], ◌∷◌, ◌++◌}
use native.Mathlib.Omega.{arith}
use rtc_simple_server.Base.Tests.{◌==◌, if◌then◌else◌}

module _ {ℓ} {A : Type ℓ} where
  abbrev pub length : List A → ℕ
  length [] = 0
  length (x ∷ xs) = suc (length xs)

  abbrev pub take : ℕ → List A → List A
  take zero xs = []
  take (suc n) [] = []
  take (suc n) (x ∷ xs) = x ∷ take n xs

  abbrev pub drop : ℕ → List A → List A
  drop zero xs = xs
  drop (suc n) [] = []
  drop (suc n) (x ∷ xs) = drop n xs

  abbrev pub is_empty : List A → Bool
  is_empty [] = true
  is_empty (x ∷ xs) = false

  pub length-append : (xs ys : List A) → length (xs ++ ys) ≡ length xs + length ys
  length-append [] ys = omega arith
  length-append (x ∷ xs) ys = omega (arith, length-append xs ys)

  pub take-append-drop : (n : ℕ) (xs : List A) → take n xs ++ drop n xs ≡ xs
  take-append-drop zero xs = refl
  take-append-drop (suc n) [] = refl
  take-append-drop (suc n) (x ∷ xs) = ap (◌∷◌ x) (take-append-drop n xs)

  pub length-take : (n : ℕ) (xs : List A) → length (take n xs) ≡ min n (length xs)
  length-take zero xs = omega arith
  length-take (suc n) [] = omega arith
  length-take (suc n) (x ∷ xs) = omega (arith, length-take n xs)

  pub length-drop : (n : ℕ) (xs : List A) → length (drop n xs) ≡ length xs - n
  length-drop zero xs = omega arith
  length-drop (suc n) [] = omega arith
  length-drop (suc n) (x ∷ xs) = omega (arith, length-drop n xs)

  pub take-append_length : (xs ys : List A) → take (length xs) (xs ++ ys) ≡ xs
  take-append_length [] ys = refl
  take-append_length (x ∷ xs) ys = ap (◌∷◌ x) (take-append_length xs ys)

  pub drop-append_length : (xs ys : List A) → drop (length xs) (xs ++ ys) ≡ ys
  drop-append_length [] ys = refl
  drop-append_length (x ∷ xs) ys = drop-append_length xs ys

-- A set of numbers: the keys of a Go `map[T]struct{}`.
unfoldable pub contains : List ℕ → ℕ → Bool
contains [] a = false
contains (x ∷ xs) a = x == a || contains xs a

unfoldable pub add_key : ℕ → List ℕ → List ℕ
unfolding contains
add_key a xs = if contains xs a then xs else a ∷ xs

unfoldable pub remove_key : ℕ → List ℕ → List ℕ
remove_key a [] = []
remove_key a (x ∷ xs) = let rest = remove_key a xs in if x == a then rest else x ∷ rest

pub contains-remove_key :
    (a b : ℕ) (xs : List ℕ)
    → contains (remove_key a xs) b ≡ (if a == b then false else contains xs b)
unfolding contains remove_key
contains-remove_key a b [] = ground arith
contains-remove_key a b (x ∷ xs) = ground (arith, contains-remove_key a b xs)

pub is_empty-add_key : (a : ℕ) (xs : List ℕ) → is_empty (add_key a xs) ≡ false
unfolding contains add_key
is_empty-add_key a [] = refl
is_empty-add_key a (x ∷ xs) = ground arith

-- The removal of several keys, one after the other.
unfoldable pub remove_keys : List ℕ → List ℕ → List ℕ
remove_keys [] xs = xs
remove_keys (r ∷ rs) xs = remove_keys rs (remove_key r xs)

contains-remove_keys :
    (rs xs : List ℕ) (b : ℕ)
    → contains (remove_keys rs xs) b ≡ (if contains rs b then false else contains xs b)
unfolding contains remove_keys
contains-remove_keys [] xs b = refl
contains-remove_keys (r ∷ rs) xs b =
    ground (arith, contains-remove_keys rs (remove_key r xs) b, contains-remove_key r b xs)

eq-nil_of_contains : (xs : List ℕ) → ((b : ℕ) → contains xs b ≡ false) → xs ≡ []
unfolding contains
eq-nil_of_contains [] h = refl
eq-nil_of_contains (x ∷ xs) h = ground (arith, h x)

-- A map loses all its keys, in whatever order they are taken.
pub remove_keys_self : (xs : List ℕ) → remove_keys xs xs ≡ []
remove_keys_self xs = eq-nil_of_contains _ (λ b. ground (arith, contains-remove_keys xs xs b))

pub remove_key_nil : (a : ℕ) (xs : List ℕ) → xs ≡ [] → remove_key a xs ≡ []
unfolding remove_key
remove_key_nil a [] e = refl
remove_key_nil a (x ∷ xs) e = cc
