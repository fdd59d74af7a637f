-- ===== src/Training/Counting.antt =====
-- Lists of identifiers without repetition: as many of them as a list has, all of them in it, are all of it.
use rssi_as_a_service.Prelude.{
  ℕ, suc, ◌≤◌, ◌≡◌, refl, ap, ◌∙◌, subst, Bool, true, false, ◌||◌, List, [], ◌∷◌, ◌==◌, length,
  some_of, count_of, count_of-le-length, arith, Bool-cases, inl, inr, ==→eq, All,
}
use rssi_as_a_service.Training.Session.{holds, distinct}

abbrev pub NoRepeat : List ℕ → Type 0
NoRepeat [] = Unit
NoRepeat (x ∷ xs) = (holds xs x ≡ false) × NoRepeat xs

-- Each element of the first list is in the second.
abbrev pub Within : List ℕ → List ℕ → Type 0
Within xs ys = All (λ x. holds ys x ≡ true) xs

pub holds-cons : (v : ℕ) (xs : List ℕ) (n : ℕ) → holds (v ∷ xs) n ≡ ((v == n) || holds xs n)
unfolding holds some_of
holds-cons v xs n = refl

pub holds-distinct : (xs : List ℕ) (n : ℕ) → holds (distinct xs) n ≡ holds xs n
unfolding distinct
holds-distinct [] n = refl
holds-distinct (x ∷ xs) n = elim (Bool-cases (holds xs x)) [
  | inl twice ↦ rw twice (ground (arith, holds-distinct xs n, holds-cons x xs n, twice))
  | inr once ↦
      rw once (ground (arith, holds-distinct xs n, holds-cons x xs n, holds-cons x (distinct xs) n))
]

pub distinct-NoRepeat : (xs : List ℕ) → NoRepeat (distinct xs)
unfolding distinct
distinct-NoRepeat [] = tt
distinct-NoRepeat (x ∷ xs) = elim (Bool-cases (holds xs x)) [
  | inl twice ↦ rw twice (distinct-NoRepeat xs)
  | inr once ↦ rw once (holds-distinct xs x ∙ once, distinct-NoRepeat xs)
]

count-more : (v : ℕ) (vus ids : List ℕ) → count_of (holds vus) ids ≤ count_of (holds (v ∷ vus)) ids
unfolding count_of
count-more v vus [] = omega arith
count-more v vus (x ∷ ids) = ground (arith, count-more v vus ids, holds-cons v vus x)

count-new :
    (v : ℕ) (vus ids : List ℕ)
    → holds ids v ≡ true
    → holds vus v ≡ false
    → suc (count_of (holds vus) ids) ≤ count_of (holds (v ∷ vus)) ids
unfolding count_of
count-new v vus [] inside fresh = unfold holds some_of in cc inside
count-new v vus (x ∷ ids) inside fresh = elim (Bool-cases (v == x)) [
  | inl same ↦
      let absent : holds vus x ≡ false = subst (λ k. holds vus k ≡ false) (==→eq v x same) fresh in
      let present : holds (v ∷ vus) x ≡ true =
        holds-cons v vus x ∙ ap (λ b. b || holds vus x) same in
      rw (absent, present) (omega (arith, count-more v vus ids))
  | inr other ↦
      let later : holds ids v ≡ true = ground (arith, inside, holds-cons x ids v, other) in
      let agree : holds (v ∷ vus) x ≡ holds vus x =
        holds-cons v vus x ∙ ap (λ b. b || holds vus x) other in
      rw agree (ground (arith, count-new v vus ids later fresh))
]

pub pigeonhole :
    (vus ids : List ℕ) → NoRepeat vus → Within vus ids → length vus ≤ count_of (holds vus) ids
pigeonhole [] ids once inside = omega arith
pigeonhole (v ∷ vus) ids once inside =
    omega (arith, pigeonhole vus ids once.1 inside.1, count-new v vus ids inside.0 once.0)

pub count-full :
    (p : ℕ → Bool) (ids : List ℕ) → length ids ≤ count_of p ids → All (λ x. p x ≡ true) ids
unfolding count_of
count-full p [] h = tt
count-full p (x ∷ ids) h = elim (Bool-cases (p x)) [
  | inl full ↦ (full, count-full p ids (ground (arith, h, full)))
  | inr gap ↦ ground (arith, h, gap, count_of-le-length p ids)
]
