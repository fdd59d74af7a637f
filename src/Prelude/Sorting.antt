-- ===== src/Prelude/Sorting.antt =====
-- `keep` and the stable sort of `order_by`: what they hold, and that a sort by a total order is in
-- order.
use mathlib.Core.Path.{◌≡◌, refl, subst, sym}
use mathlib.Core.Logic.{◌⊎◌, inl, inr}
use mathlib.Core.Bool.{Bool, true, false}
use mathlib.Core.List.{List, [], ◌∷◌, Memᴰ}
use mathlib.Core.List.Memᴰ
use rssi_as_a_service.Prelude.Tests.{if◌then◌else◌, Bool-cases}
use rssi_as_a_service.Prelude.Lists.{keep, insert_by, sort_by, All}

module _ {ℓ} {A : Type ℓ} where
  pub All-mem {κ} : (P : A → Type κ) (xs : List A) {x : A} → All P xs → Memᴰ x xs → P x
  All-mem P [] h m = elim m [ ]
  All-mem P (y ∷ ys) h (Memᴰ.head e) = subst P (sym e) h.0
  All-mem P (y ∷ ys) h (Memᴰ.tail m) = All-mem P ys h.1 m

  pub mem-All {κ} : (P : A → Type κ) (xs : List A) → ((x : A) → Memᴰ x xs → P x) → All P xs
  mem-All P [] h = tt
  mem-All P (y ∷ ys) h = (h y (Memᴰ.head refl), mem-All P ys (λ x m. h x (Memᴰ.tail m)))

  -- Membership of a list that a test chooses.
  pub mem_if :
      (b : Bool) (xs ys : List A) {x : A}
      → Memᴰ x (if b then xs else ys)
      → ((b ≡ true) × Memᴰ x xs) ⊎ ((b ≡ false) × Memᴰ x ys)
  mem_if true xs ys m = inl (refl, m)
  mem_if false xs ys m = inr (refl, m)

  pub mem-keep :
      (p : A → Bool) (xs : List A) {x : A} → Memᴰ x (keep p xs) → Memᴰ x xs × (p x ≡ true)
  unfolding keep
  mem-keep p [] m = elim m [ ]
  mem-keep p (y ∷ ys) m = elim (mem_if (p y) (y ∷ keep p ys) (keep p ys) m) [
    | inl (kept, m') ↦ elim (Memᴰ.cases_cons m') [
      | inl e ↦ (Memᴰ.head e, subst (λ z. p z ≡ true) (sym e) kept)
      | inr rest ↦ let (a, b) = mem-keep p ys rest in (Memᴰ.tail a, b)
    ]
    | inr (_, m') ↦ let (a, b) = mem-keep p ys m' in (Memᴰ.tail a, b)
  ]

  pub keep-mem : (p : A → Bool) (xs : List A) {x : A} → Memᴰ x xs → p x ≡ true → Memᴰ x (keep p xs)
  unfolding keep
  keep-mem p [] m h = elim m [ ]
  keep-mem p (y ∷ ys) (Memᴰ.head e) h = rw (subst (λ z. p z ≡ true) e h) (Memᴰ.head e)
  keep-mem p (y ∷ ys) (Memᴰ.tail m) h = elim (Bool-cases (p y)) [
    | inl kept ↦ rw kept (Memᴰ.tail (keep-mem p ys m h))
    | inr dropped ↦ rw dropped (keep-mem p ys m h)
  ]

module _ {ℓ} {A : Type ℓ} (le : A → A → Bool) where
  insert_by-mem : (x : A) (ys : List A) {y : A} → Memᴰ y (x ∷ ys) → Memᴰ y (insert_by le x ys)
  unfolding insert_by
  insert_by-mem x [] m = m
  insert_by-mem x (z ∷ zs) m = elim (Bool-cases (le x z)) [
    | inl before ↦ rw before m
    | inr after ↦ rw after (elim (Memᴰ.cases_cons m) [
      | inl e ↦ Memᴰ.tail (insert_by-mem x zs (Memᴰ.head e))
      | inr rest ↦ elim (Memᴰ.cases_cons rest) [
        | inl e ↦ Memᴰ.head e
        | inr deep ↦ Memᴰ.tail (insert_by-mem x zs (Memᴰ.tail deep))
      ]
    ])
  ]

  pub sort_by-mem : (xs : List A) {y : A} → Memᴰ y xs → Memᴰ y (sort_by le xs)
  unfolding sort_by
  sort_by-mem [] m = elim m [ ]
  sort_by-mem (x ∷ xs) m = insert_by-mem x (sort_by le xs) (elim (Memᴰ.cases_cons m) [
    | inl e ↦ Memᴰ.head e
    | inr rest ↦ Memᴰ.tail (sort_by-mem xs rest)
  ])

  -- A predicate on every element is one on every element of the sorted list.
  insert_by-All {κ} :
      (P : A → Type κ) (x : A) (ys : List A) → P x → All P ys → All P (insert_by le x ys)
  unfolding insert_by
  insert_by-All P x [] h hs = (h, hs)
  insert_by-All P x (z ∷ zs) h hs = elim (Bool-cases (le x z)) [
    | inl before ↦ rw before (h, hs)
    | inr after ↦ rw after (hs.0, insert_by-All P x zs h hs.1)
  ]

  pub sort_by-All {κ} : (P : A → Type κ) (xs : List A) → All P xs → All P (sort_by le xs)
  unfolding sort_by
  sort_by-All P [] h = tt
  sort_by-All P (x ∷ xs) h = insert_by-All P x (sort_by le xs) h.0 (sort_by-All P xs h.1)

  -- Each element stands before none that it does not precede.
  abbrev pub IsSorted : List A → Type 0
  IsSorted [] = Unit
  IsSorted (x ∷ xs) = All (λ y. le x y ≡ true) xs × IsSorted xs

  module _ (total : (x y : A) → le x y ≡ false → le y x ≡ true)
      (trans : (x y z : A) → le x y ≡ true → le y z ≡ true → le x z ≡ true) where
    All-trans :
        (x y : A) (zs : List A)
        → le x y ≡ true
        → All (λ z. le y z ≡ true) zs
        → All (λ z. le x z ≡ true) zs
    All-trans x y [] h hs = tt
    All-trans x y (z ∷ zs) h hs = (trans x y z h hs.0, All-trans x y zs h hs.1)

    insert_by-IsSorted : (x : A) (ys : List A) → IsSorted ys → IsSorted (insert_by le x ys)
    unfolding insert_by
    insert_by-IsSorted x [] h = (tt, tt)
    insert_by-IsSorted x (z ∷ zs) h = elim (Bool-cases (le x z)) [
      | inl before ↦ rw before ((before, All-trans x z zs before h.0), h)
      | inr after ↦ rw after (
        insert_by-All (λ w. le z w ≡ true) x zs (total x z after) h.0,
        insert_by-IsSorted x zs h.1,
      )
    ]

    pub sort_by-IsSorted : (xs : List A) → IsSorted (sort_by le xs)
    unfolding sort_by
    sort_by-IsSorted [] = tt
    sort_by-IsSorted (x ∷ xs) = insert_by-IsSorted x (sort_by le xs) (sort_by-IsSorted xs)

module _ {ℓ} {A : Type ℓ} (le : A → A → Bool) (p : A → Bool) where
  keep-All {κ} : (P : A → Type κ) (xs : List A) → All P xs → All P (keep p xs)
  unfolding keep
  keep-All P [] h = tt
  keep-All P (x ∷ xs) h = elim (Bool-cases (p x)) [
    | inl kept ↦ rw kept (h.0, keep-All P xs h.1)
    | inr dropped ↦ rw dropped (keep-All P xs h.1)
  ]

  pub keep-IsSorted : (xs : List A) → IsSorted le xs → IsSorted le (keep p xs)
  unfolding keep
  keep-IsSorted [] h = tt
  keep-IsSorted (x ∷ xs) h = elim (Bool-cases (p x)) [
    | inl kept ↦ rw kept (keep-All (λ y. le x y ≡ true) xs h.0, keep-IsSorted xs h.1)
    | inr dropped ↦ rw dropped (keep-IsSorted xs h.1)
  ]
