-- ===== src/AccessRequests/Table.antt =====
-- The table of requests: what a write on one row leaves of the keys and of the other rows.
use rssi_as_a_service.Prelude.{
  ==→eq, subst, sym, ℕ, suc, ◌<◌, ◌≡◌, refl, ◌≢◌, true, false, List, [], ◌∷◌, none, some, ◌==◌,
  arith, All, Bool-cases, inl, inr, sym, subst,
}
use rssi_as_a_service.AccessRequests.Model.{AccessRequest, find_request, update_rows}

-- No two rows have one key.
abbrev pub IsKeyed : List AccessRequest → Type 0
IsKeyed [] = Unit
IsKeyed (r ∷ rows) = (find_request r.id rows ≡ none) × IsKeyed rows

abbrev pub AreBelow : ℕ → List AccessRequest → Type 0
AreBelow n = All (λ r. r.id < n)

-- A write that leaves the key and the subject alone.
abbrev pub KeepsSubject : (AccessRequest → AccessRequest) → Type 0
KeepsSubject f =
    (r : AccessRequest)
    → ((f r).id ≡ r.id)
      × ((f r).tenant ≡ r.tenant)
      × ((f r).subject_type ≡ r.subject_type)
      × ((f r).subject_key ≡ r.subject_key)

pub find-AreBelow :
    (n : ℕ) (rows : List AccessRequest) → AreBelow n rows → find_request n rows ≡ none
unfolding find_request
find-AreBelow n [] h = refl
find-AreBelow n (r ∷ rows) h = ground (arith, find-AreBelow n rows h.1)

pub AreBelow-suc : (n : ℕ) (rows : List AccessRequest) → AreBelow n rows → AreBelow (suc n) rows
AreBelow-suc n [] h = tt
AreBelow-suc n (r ∷ rows) h = (omega arith, AreBelow-suc n rows h.1)

pub find-below :
    (n i : ℕ) (r : AccessRequest) (rows : List AccessRequest)
    → AreBelow n rows
    → find_request i rows ≡ some r
    → i < n
unfolding find_request
find-below n i r [] h e = cc
find-below n i r (q ∷ rows) h e = ground (arith, h.0, find-below n i r rows h.1)

pub find-id :
    (i : ℕ) (r : AccessRequest) (rows : List AccessRequest)
    → find_request i rows ≡ some r
    → r.id ≡ i
unfolding find_request
find-id i r [] e = cc
find-id i r (q ∷ rows) e = ground (arith, find-id i r rows)

pub update-absent :
    (f : AccessRequest → AccessRequest) (i : ℕ) (rows : List AccessRequest)
    → find_request i rows ≡ none
    → update_rows f i rows ≡ rows
unfolding find_request update_rows
update-absent f i [] h = refl
update-absent f i (r ∷ rows) h = ground (arith, update-absent f i rows)

pub later :
    (i : ℕ) (s r : AccessRequest) (rows : List AccessRequest)
    → find_request i (r ∷ rows) ≡ some s
    → (r.id == i) ≡ false
    → find_request i rows ≡ some s
unfolding find_request
later i s r rows h e = ground arith

pub found :
    (i : ℕ) (s r : AccessRequest) (rows : List AccessRequest)
    → find_request i (r ∷ rows) ≡ some s
    → (r.id == i) ≡ true
    → r ≡ s
unfolding find_request
found i s r rows h e = ground arith

pub update-here :
    (f : AccessRequest → AccessRequest) (i : ℕ) (r : AccessRequest) (rows : List AccessRequest)
    → find_request r.id rows ≡ none
    → (r.id == i) ≡ true
    → update_rows f i (r ∷ rows) ≡ f r ∷ rows
unfolding update_rows
update-here f i r rows k e =
    rw (e, update-absent f i rows (subst (λ x. find_request x rows ≡ none) (==→eq r.id i e) k)) refl

pub update-there :
    (f : AccessRequest → AccessRequest) (i : ℕ) (r : AccessRequest) (rows : List AccessRequest)
    → (r.id == i) ≡ false
    → update_rows f i (r ∷ rows) ≡ r ∷ update_rows f i rows
unfolding update_rows
update-there f i r rows e = rw e refl

pub find-All :
    (P : AccessRequest → Type 0) (i : ℕ) (s : AccessRequest) (rows : List AccessRequest)
    → find_request i rows ≡ some s
    → All P rows
    → P s
find-All P i s [] h all = unfold find_request in cc
find-All P i s (r ∷ rows) h all = elim (Bool-cases (r.id == i)) [
  | inl here ↦ subst P (found i s r rows h here) all.0
  | inr there ↦ find-All P i s rows (later i s r rows h there) all.1
]

module _ (f : AccessRequest → AccessRequest) (keeps : KeepsSubject f) where
  pub find-update :
      (i : ℕ) (s : AccessRequest) (rows : List AccessRequest)
      → find_request i rows ≡ some s
      → find_request i (update_rows f i rows) ≡ some (f s)
  unfolding find_request update_rows
  find-update i s [] h = cc
  find-update i s (r ∷ rows) h = ground (arith, (keeps r).0, find-update i s rows)

  pub find-update_ne :
      (i j : ℕ) (rows : List AccessRequest)
      → i ≢ j
      → find_request j (update_rows f i rows) ≡ find_request j rows
  unfolding find_request update_rows
  find-update_ne i j [] ne = refl
  find-update_ne i j (r ∷ rows) ne = ground (arith, (keeps r).0, find-update_ne i j rows ne)

  find-update_none :
      (i j : ℕ) (rows : List AccessRequest)
      → find_request j rows ≡ none
      → find_request j (update_rows f i rows) ≡ none
  unfolding find_request update_rows
  find-update_none i j [] h = refl
  find-update_none i j (r ∷ rows) h = ground (arith, (keeps r).0, find-update_none i j rows)

  pub update-IsKeyed :
      (i : ℕ) (rows : List AccessRequest) → IsKeyed rows → IsKeyed (update_rows f i rows)
  unfolding update_rows
  update-IsKeyed i [] h = tt
  update-IsKeyed i (r ∷ rows) h =
      ground (arith, (keeps r).0, find-update_none i r.id rows h.0, update-IsKeyed i rows h.1)

  pub update-AreBelow :
      (i n : ℕ) (rows : List AccessRequest) → AreBelow n rows → AreBelow n (update_rows f i rows)
  unfolding update_rows
  update-AreBelow i n [] h = tt
  update-AreBelow i n (r ∷ rows) h = ground (arith, (keeps r).0, update-AreBelow i n rows h.1)

  -- What holds of every row, and of the row as written, holds after.
  pub update-All :
      (P : AccessRequest → Type 0) (i : ℕ) (s : AccessRequest) (rows : List AccessRequest)
      → IsKeyed rows
      → find_request i rows ≡ some s
      → P (f s)
      → All P rows
      → All P (update_rows f i rows)
  unfolding find_request update_rows
  update-All P i s [] k h p all = tt
  update-All P i s (r ∷ rows) k h p all = elim (Bool-cases (r.id == i)) [
    | inl here ↦
        let same : r ≡ s = ground arith in
        rw (here, update-absent f i rows (ground (arith, k.0)))
          (subst (λ x. P (f x)) (sym same) p, all.1)
    | inr there ↦ rw there (all.0, update-All P i s rows k.1 (ground arith) p all.1)
  ]
