-- ===== src/Prelude/Lists.antt =====
-- Lists measured by native numbers, under the library's names, with the helpers that stand for
-- Python's comprehensions (`any`, `filter`) and for the `order_by` of a query.
use Prim.Native.Nat.{zero, ℕ, suc, ◌+◌, ◌≤◌}
use Prim.Native.String.{String}
use mathlib.Core.Path.{◌≡◌}
use mathlib.Core.Bool.{Bool, false, ◌||◌}
use mathlib.Core.Option.{Option, none, some}
use mathlib.Core.List.{List, [], ◌∷◌, ◌++◌}
use native.Mathlib.Omega.{arith}
use text.Mathlib.Text.{◌==◌ as str_eq}
use rssi_as_a_service.Prelude.Tests.{if◌then◌else◌}

module _ {ℓ} {A : Type ℓ} where
  abbrev pub length : List A → ℕ
  length [] = 0
  length (x ∷ xs) = suc (length xs)

  abbrev pub first : List A → Option A
  first [] = none
  first (x ∷ _) = some x

  abbrev pub or_else : Option A → Option A → Option A
  or_else none other = other
  or_else (some x) _ = some x

  abbrev pub get_or : Option A → A → A
  get_or none d = d
  get_or (some x) _ = x

  -- `[x for x in xs if p(x)]`
  unfoldable pub keep : (A → Bool) → List A → List A
  keep p [] = []
  keep p (x ∷ xs) = let rest = keep p xs in if p x then x ∷ rest else rest

  -- `any(p(x) for x in xs)`
  unfoldable pub some_of : (A → Bool) → List A → Bool
  some_of p [] = false
  some_of p (x ∷ xs) = p x || some_of p xs

  -- The number of elements that pass a test.
  unfoldable pub count_of : (A → Bool) → List A → ℕ
  count_of p [] = 0
  count_of p (x ∷ xs) = let rest = count_of p xs in if p x then suc rest else rest

  -- `sorted`, stable: `le x y` lets x stand before y.
  unfoldable pub insert_by : (A → A → Bool) → A → List A → List A
  insert_by le x [] = x ∷ []
  insert_by le x (y ∷ ys) = let rest = insert_by le x ys in if le x y then x ∷ y ∷ ys else y ∷ rest

  unfoldable pub sort_by : (A → A → Bool) → List A → List A
  unfolding insert_by
  sort_by le [] = []
  sort_by le (x ∷ xs) = insert_by le x (sort_by le xs)

  -- A predicate on every element, by recursion.
  abbrev pub All {κ} : (A → Type κ) → List A → Type κ
  All P [] = Unit
  All P (x ∷ xs) = P x × All P xs

module _ {ℓ} {A : Type ℓ} where
  pub count_of-le-length : (p : A → Bool) (xs : List A) → count_of p xs ≤ length xs
  unfolding count_of
  count_of-le-length p [] = omega arith
  count_of-le-length p (x ∷ xs) = ground (arith, count_of-le-length p xs)

  pub count_of-append :
      (p : A → Bool) (xs ys : List A) → count_of p (xs ++ ys) ≡ count_of p xs + count_of p ys
  unfolding count_of
  count_of-append p [] ys = omega arith
  count_of-append p (x ∷ xs) ys = ground (arith, count_of-append p xs ys)

-- `key in keys`
unfoldable pub contains : List String → String → Bool
contains [] k = false
contains (x ∷ xs) k = str_eq x k || contains xs k

-- `text[:n]`
unfoldable pub take_text : ℕ → String → String
take_text zero s = String.[]
take_text (suc n) String.[] = String.[]
take_text (suc n) (String.◌∷◌ c s) = String.◌∷◌ c (take_text n s)
