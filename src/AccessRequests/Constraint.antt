-- ===== src/AccessRequests/Constraint.antt =====
-- The unique constraint of the requests, under a write on an open row.
use rssi_as_a_service.Prelude.{
  Bool, subst, sym, ℕ, ◌≡◌, refl, true, false, List, [], ◌∷◌, some, ◌==◌, arith, some_of,
  Bool-cases, inl, inr, sym, subst,
}
use rssi_as_a_service.AccessRequests.Model.{
  AccessRequest, is_open, clashes, is_unique, find_request, update_rows,
}
use rssi_as_a_service.AccessRequests.Table.{
  IsKeyed, KeepsSubject, later, found, update-here, update-there,
}

some-cons :
    (p : AccessRequest → Bool) (r : AccessRequest) (rows : List AccessRequest)
    → p r ≡ false
    → some_of p rows ≡ false
    → some_of p (r ∷ rows) ≡ false
unfolding some_of
some-cons p r rows h t = rw (h, t) refl

some-split :
    (p : AccessRequest → Bool) (r : AccessRequest) (rows : List AccessRequest)
    → some_of p (r ∷ rows) ≡ false
    → (p r ≡ false) × (some_of p rows ≡ false)
unfolding some_of
some-split p r rows h = ground arith

unique-cons :
    (r : AccessRequest) (rows : List AccessRequest)
    → some_of (clashes r) rows ≡ false
    → is_unique rows ≡ true
    → is_unique (r ∷ rows) ≡ true
unfolding is_unique
unique-cons r rows h t = rw (h, t) refl

unique-split :
    (r : AccessRequest) (rows : List AccessRequest)
    → is_unique (r ∷ rows) ≡ true
    → (some_of (clashes r) rows ≡ false) × (is_unique rows ≡ true)
unfolding is_unique
unique-split r rows h = ground arith

module _ (f : AccessRequest → AccessRequest) (keeps : KeepsSubject f) where
  clash-step :
      (q s : AccessRequest)
      → is_open s.status ≡ true
      → clashes q s ≡ false
      → clashes q (f s) ≡ false
  unfolding clashes
  clash-step q s o h = ground (arith, keeps s)

  clashes-update :
      (q : AccessRequest) (i : ℕ) (s : AccessRequest) (rows : List AccessRequest)
      → IsKeyed rows
      → find_request i rows ≡ some s
      → is_open s.status ≡ true
      → some_of (clashes q) rows ≡ false
      → some_of (clashes q) (update_rows f i rows) ≡ false
  clashes-update q i s [] k h o free = unfold update_rows in free
  clashes-update q i s (r ∷ rows) k h o free =
      let (head, tail) = some-split (clashes q) r rows free in
      elim (Bool-cases (r.id == i)) [
        | inl here ↦
            let same = found i s r rows h here in
            let live : is_open r.status ≡ true =
              subst (λ x. is_open x.status ≡ true) (sym same) o in
            rw (update-here f i r rows k.0 here)
              (some-cons (clashes q) (f r) rows (clash-step q r live head) tail)
        | inr there ↦ rw (update-there f i r rows there) (
            some-cons (clashes q) r (update_rows f i rows) head
              (clashes-update q i s rows k.1 (later i s r rows h there) o tail))
      ]

  written-step :
      (s q : AccessRequest)
      → is_open s.status ≡ true
      → clashes s q ≡ false
      → clashes (f s) q ≡ false
  unfolding clashes
  written-step s q o h = ground (arith, keeps s)

  clashes-written :
      (s : AccessRequest) (rows : List AccessRequest)
      → is_open s.status ≡ true
      → some_of (clashes s) rows ≡ false
      → some_of (clashes (f s)) rows ≡ false
  clashes-written s [] o h = unfold some_of in refl
  clashes-written s (q ∷ rows) o h =
      let (head, tail) = some-split (clashes s) q rows h in
      some-cons (clashes (f s)) q rows (written-step s q o head) (clashes-written s rows o tail)

  -- A write on an open row, whatever its new status, breaks no constraint.
  pub update-is_unique :
      (i : ℕ) (s : AccessRequest) (rows : List AccessRequest)
      → IsKeyed rows
      → find_request i rows ≡ some s
      → is_open s.status ≡ true
      → is_unique rows ≡ true
      → is_unique (update_rows f i rows) ≡ true
  update-is_unique i s [] k h o u = unfold update_rows in u
  update-is_unique i s (r ∷ rows) k h o u =
      let (free, rest) = unique-split r rows u in
      elim (Bool-cases (r.id == i)) [
        | inl here ↦
            let same = found i s r rows h here in
            let live : is_open r.status ≡ true =
              subst (λ x. is_open x.status ≡ true) (sym same) o in
            rw (update-here f i r rows k.0 here)
              (unique-cons (f r) rows (clashes-written r rows live free) rest)
        | inr there ↦
            let below = later i s r rows h there in
            rw (update-there f i r rows there) (
              unique-cons r (update_rows f i rows) (clashes-update r i s rows k.1 below o free)
                (update-is_unique i s rows k.1 below o rest))
      ]
