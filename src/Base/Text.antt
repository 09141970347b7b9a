-- ===== src/Base/Text.antt =====
-- Texts as keys: their decidable equality, and association lists for Go maps with such keys.
use text.Mathlib.Text.{◌==◌ as str_eq}
use text.Mathlib.TextEquality.{eq_iff}
use Prim.Native.String.{String}
use mathlib.Core.Path.{◌≡◌}
use mathlib.Core.Logic.{inl, inr}
use mathlib.Core.Bool.{false}
use mathlib.Core.Option.{Option, none, some}
use mathlib.Core.List.{List, [], ◌∷◌}
use native.Mathlib.Omega.{arith}
use rtc_simple_server.Base.Tests.{if◌then◌else◌, Bool-cases}

pub String-discrete : Discrete String
String-discrete s t = elim (Bool-cases (str_eq s t)) [
  | inl e ↦ yes ((eq_iff s t).0 e)
  | inr e ↦ no (λ p. cc (e, (eq_iff s t).1 p))
]

-- A Go map with texts as keys, as a list of its entries. The order of the entries
-- decides nothing but which of several names an error shows.
module _ {ℓ} {V : Type ℓ} where
  unfoldable pub lookup : String → List (String × V) → Option V
  lookup name [] = none
  lookup name ((key, value) ∷ rest) =
      let later = lookup name rest in if str_eq key name then some value else later

  unfoldable pub delete : String → List (String × V) → List (String × V)
  delete name [] = []
  delete name ((key, value) ∷ rest) =
      let others = delete name rest in if str_eq key name then others else (key, value) ∷ others

  unfoldable pub insert : String → V → List (String × V) → List (String × V)
  unfolding delete
  insert name value entries = (name, value) ∷ delete name entries

  pub lookup-delete :
      (gone name : String) (entries : List (String × V))
      → lookup name (delete gone entries) ≡ (if str_eq gone name then none else lookup name entries)
  unfolding lookup delete
  lookup-delete gone name [] = ground arith
  lookup-delete gone name ((key, value) ∷ rest) =
      ground
        (arith, lookup-delete gone name rest, eq_iff key gone, eq_iff key name, eq_iff gone name)

  pub lookup-insert :
      (new name : String) (value : V) (entries : List (String × V))
      → lookup name (insert new value entries)
        ≡ (if str_eq new name then some value else lookup name entries)
  unfolding lookup insert
  lookup-insert new name value entries = ground (arith, lookup-delete new name entries)

  pub lookup-insert_same :
      (name : String) (value : V) (entries : List (String × V))
      → lookup name (insert name value entries) ≡ some value
  lookup-insert_same name value entries =
      ground (arith, lookup-insert name name value entries, eq_iff name name)

  pub lookup-insert_other :
      (new name : String) (value : V) (entries : List (String × V))
      → str_eq new name ≡ false
      → lookup name (insert new value entries) ≡ lookup name entries
  lookup-insert_other new name value entries h =
      ground (arith, lookup-insert new name value entries, h)
