-- ===== src/Training/Grading.antt =====
-- backend/apps/training/services.py: the grade of a quiz.
use native.Mathlib.Nat.{div-add-mod, mod-lt}
use rssi_as_a_service.Prelude.{
  ℕ, suc, ◌+◌, ◌*◌, ◌/◌, ◌%◌, ◌≤◌, ◌<◌, ◌≡◌, refl, sym, ◌∙◌, true, false, List, [], ◌∷◌, ltb, ◌==◌,
  Bool-cases, inl, inr, arith, ◌⊎◌, subst, some_of, ==→eq, length,
}
use rssi_as_a_service.Training.Model.{Question}
use rssi_as_a_service.Training.Session.{
  round_ratio, corriger, included, same_set, holds, distinct, is_empty, is_single,
}
use rssi_as_a_service.Training.Counting.{holds-cons}

-- The quotient, or the next number, by the rest.
round_ratio-cases :
    (a n : ℕ)
    → ((round_ratio a n ≡ a / n) × (2 * (a % n) ≤ n))
      ⊎ ((round_ratio a n ≡ suc (a / n)) × (n ≤ 2 * (a % n)))
unfolding round_ratio
round_ratio-cases a n = elim (Bool-cases (ltb (2 * (a % n)) n)) [
  | inl below ↦ rw below (inl (refl, ground (arith, below)))
  | inr above ↦ elim (Bool-cases (ltb n (2 * (a % n)))) [
    | inl over ↦ rw (above, over) (inr (refl, ground (arith, over)))
    | inr middle ↦ elim (Bool-cases (a / n % 2 == 0)) [
      | inl even ↦ rw (above, middle, even) (inl (refl, ground (arith, middle)))
      | inr odd ↦ rw (above, middle, odd) (inr (refl, ground (arith, above)))
    ]
  ]
]

-- A rounded ratio is within a half of the exact one.
pub round_ratio-near :
    (a n : ℕ)
    → 0 < n
    → (2 * a ≤ 2 * (n * round_ratio a n) + n) × (2 * (n * round_ratio a n) ≤ 2 * a + n)
round_ratio-near a n h = elim (round_ratio-cases a n) [
  | inl (e, low) ↦ rw e (
    omega (arith, low, div-add-mod a n, mod-lt a h),
    omega (arith, low, div-add-mod a n, mod-lt a h),
  )
  | inr (e, high) ↦ rw e (
    omega (arith, high, div-add-mod a n, mod-lt a h),
    omega (arith, high, div-add-mod a n, mod-lt a h),
  )
]

holds-included :
    (xs ys : List ℕ) (n : ℕ) → included xs ys ≡ true → holds xs n ≡ true → holds ys n ≡ true
unfolding included
holds-included [] ys n h k = unfold holds some_of in cc k
holds-included (x ∷ xs) ys n h k = elim (Bool-cases (x == n)) [
  | inl same ↦ subst (λ m. holds ys m ≡ true) (==→eq x n same) (ground (arith, h))
  | inr other ↦
      holds-included xs ys n (ground (arith, h)) (ground (arith, k, holds-cons x xs n, other))
]

-- A right answer has exactly the choices expected, and one alone for a question of a single choice.
pub corriger-exact :
    (q : Question) (choisis attendus : List ℕ)
    → corriger q choisis attendus ≡ true
    → (is_empty choisis ≡ false)
      × (is_single q.kind ≡ true → length (distinct choisis) ≡ 1)
      × ((n : ℕ) → holds choisis n ≡ holds attendus n)
unfolding corriger same_set
corriger-exact q choisis attendus h =
    let there : included choisis attendus ≡ true = ground (arith, h) in
    let back : included attendus choisis ≡ true = ground (arith, h) in
    (
      ground (arith, h),
      (λ s. ground (arith, h, s)),
      (λ n. elim (Bool-cases (holds choisis n)) [
        | inl chosen ↦ chosen ∙ sym (holds-included choisis attendus n there chosen)
        | inr not_chosen ↦ elim (Bool-cases (holds attendus n)) [
          | inl expected ↦ cc (holds-included attendus choisis n back expected, not_chosen)
          | inr unexpected ↦ not_chosen ∙ sym unexpected
        ]
      ]),
    )
