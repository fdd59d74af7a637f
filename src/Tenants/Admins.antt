-- ===== src/Tenants/Admins.antt =====
-- backend/apps/tenants/services.py: a client that has an administrator keeps one.
use rssi_as_a_service.Prelude.{
  ℕ, ◌+◌, ◌≤◌, ◌≡◌, refl, sym, ◌∙◌, subst, Bool, true, false, ◌&&◌, not, List, [], ◌∷◌, some, ◌==◌,
  if◌then◌else◌, count_of, arith, Bool-cases, inl, inr,
}
use rssi_as_a_service.Tenants.Members.{
  Membership, find_membership, change_membership, drop_membership,
}

abbrev pub one_if : Bool → ℕ
one_if b = if b then 1 else 0

member_head :
    (x : Membership) (id : ℕ) (rows : List Membership)
    → (x.id == id) ≡ true
    → find_membership id (x ∷ rows) ≡ some x
unfolding find_membership
member_head x id rows here = rw here refl

member_tail :
    (x : Membership) (id : ℕ) (rows : List Membership)
    → (x.id == id) ≡ false
    → find_membership id (x ∷ rows) ≡ find_membership id rows
unfolding find_membership
member_tail x id rows past = rw past refl

module _ (p : Membership → Bool) where
  pub count-change :
      (f : Membership → Membership) (id : ℕ) (rows : List Membership) (m : Membership)
      → find_membership id rows ≡ some m
      → count_of p (change_membership f id rows) + one_if (p m) ≡ count_of p rows + one_if (p (f m))
  unfolding count_of find_membership change_membership
  count-change f id [] m h = cc h
  count-change f id (x ∷ rows) m h = elim (Bool-cases (x.id == id)) [
    | inl here ↦
        let same : x ≡ m = cc (member_head x id rows here, h) in
        rw here (
          subst
            (λ y. count_of p (f x ∷ rows) + one_if (p y) ≡ count_of p (x ∷ rows) + one_if (p (f y)))
            same (ground arith))
    | inr past ↦
        let rest = count-change f id rows m (sym (member_tail x id rows past) ∙ h) in
        rw past (ground (arith, rest))
  ]

  pub count-drop :
      (id : ℕ) (rows : List Membership) (m : Membership)
      → find_membership id rows ≡ some m
      → count_of p (drop_membership id rows) + one_if (p m) ≡ count_of p rows
  unfolding count_of find_membership drop_membership
  count-drop id [] m h = cc h
  count-drop id (x ∷ rows) m h = elim (Bool-cases (x.id == id)) [
    | inl here ↦
        let same : x ≡ m = cc (member_head x id rows here, h) in
        rw here
          (subst (λ y. count_of p rows + one_if (p y) ≡ count_of p (x ∷ rows)) same (ground arith))
    | inr past ↦
        let rest = count-drop id rows m (sym (member_tail x id rows past) ∙ h) in
        rw past (ground (arith, rest))
  ]

  others-fewer :
      (id : ℕ) (rows : List Membership)
      → count_of (λ x. p x && not (x.id == id)) rows ≤ count_of p rows
  unfolding count_of
  others-fewer id [] = omega arith
  others-fewer id (x ∷ rows) = ground (arith, others-fewer id rows)

  pub others-change :
      (f : Membership → Membership) (id : ℕ) (rows : List Membership)
      → count_of (λ x. p x && not (x.id == id)) rows ≤ count_of p (change_membership f id rows)
  unfolding count_of change_membership
  others-change f id [] = omega arith
  others-change f id (x ∷ rows) = elim (Bool-cases (x.id == id)) [
    | inl here ↦ rw here (ground (arith, others-fewer id rows))
    | inr past ↦ rw past (ground (arith, others-change f id rows))
  ]

  pub others-drop :
      (id : ℕ) (rows : List Membership)
      → count_of (λ x. p x && not (x.id == id)) rows ≤ count_of p (drop_membership id rows)
  unfolding count_of drop_membership
  others-drop id [] = omega arith
  others-drop id (x ∷ rows) = elim (Bool-cases (x.id == id)) [
    | inl here ↦ rw here (ground (arith, others-fewer id rows))
    | inr past ↦ rw past (ground (arith, others-drop id rows))
  ]
