-- ===== src/Billing/Rows.antt =====
-- The table of subscriptions: its keys are distinct, and what a row's save does to the sum of the
-- slots that the table engages.
use rssi_as_a_service.Prelude.{
  ℕ, ◌+◌, ◌<◌, ◌≡◌, refl, Bool, List, [], ◌∷◌, none, some, ◌==◌, All, if◌then◌else◌, arith, ◌≢◌,
  keep, suc, Bool-cases, inl, inr, ◌∙◌,
}
use rssi_as_a_service.Billing.Model.{
  Subscription, is_operational, monitored_assets_quota, find_subscription, save_rows,
}
use rssi_as_a_service.Billing.Capacity.{committed_slots}

-- No two rows have one key.
abbrev pub IsKeyed : List Subscription → Type 0
IsKeyed [] = Unit
IsKeyed (r ∷ rows) = (find_subscription r.id rows ≡ none) × IsKeyed rows

-- Every key was drawn from the sequence.
abbrev pub AreBelow : ℕ → List Subscription → Type 0
AreBelow n = All (λ s. s.id < n)

-- What one row adds to the engagement.
unfoldable pub share : Subscription → ℕ
unfolding is_operational monitored_assets_quota
share s = if is_operational s then monitored_assets_quota s else 0

-- A write that leaves the key alone.
abbrev pub KeepsKey : (Subscription → Subscription) → Type 0
KeepsKey f = (s : Subscription) → (f s).id ≡ s.id

pub find-AreBelow :
    (n : ℕ) (rows : List Subscription) → AreBelow n rows → find_subscription n rows ≡ none
unfolding find_subscription
find-AreBelow n [] h = refl
find-AreBelow n (r ∷ rows) h = ground (arith, find-AreBelow n rows h.1)

pub find-save_other :
    (f : Subscription → Subscription) (i j : ℕ) (rows : List Subscription)
    → KeepsKey f
    → find_subscription j rows ≡ none
    → find_subscription j (save_rows f i rows) ≡ none
unfolding find_subscription save_rows
find-save_other f i j [] k h = refl
find-save_other f i j (r ∷ rows) k h = ground (arith, k r, find-save_other f i j rows k)

pub save-IsKeyed :
    (f : Subscription → Subscription) (i : ℕ) (rows : List Subscription)
    → KeepsKey f
    → IsKeyed rows
    → IsKeyed (save_rows f i rows)
unfolding save_rows
save-IsKeyed f i [] k h = tt
save-IsKeyed f i (r ∷ rows) k h =
    ground (arith, k r, find-save_other f i r.id rows k h.0, save-IsKeyed f i rows k h.1)

pub save-AreBelow :
    (f : Subscription → Subscription) (i n : ℕ) (rows : List Subscription)
    → KeepsKey f
    → AreBelow n rows
    → AreBelow n (save_rows f i rows)
unfolding save_rows
save-AreBelow f i n [] k h = tt
save-AreBelow f i n (r ∷ rows) k h = ground (arith, k r, save-AreBelow f i n rows k h.1)

-- A key that no row has excludes nothing.
pub committed-excluding_none :
    (i : ℕ) (rows : List Subscription)
    → find_subscription i rows ≡ none
    → committed_slots (some i) rows ≡ committed_slots none rows
unfolding find_subscription committed_slots
committed-excluding_none i [] h = refl
committed-excluding_none i (r ∷ rows) h = ground (arith, committed-excluding_none i rows)

-- The engagement is that of the other rows and the row's own share.
pub committed-split :
    (i : ℕ) (s : Subscription) (rows : List Subscription)
    → IsKeyed rows
    → find_subscription i rows ≡ some s
    → committed_slots none rows ≡ committed_slots (some i) rows + share s
unfolding find_subscription committed_slots share
committed-split i s [] k h = ground arith
committed-split i s (r ∷ rows) k h =
    ground (arith, committed-split i s rows k.1, committed-excluding_none i rows)

pub save_rows-absent :
    (f : Subscription → Subscription) (i : ℕ) (rows : List Subscription)
    → find_subscription i rows ≡ none
    → save_rows f i rows ≡ rows
unfolding find_subscription save_rows
save_rows-absent f i [] h = refl
save_rows-absent f i (r ∷ rows) h = ground (arith, save_rows-absent f i rows)

-- After a save it is that of the other rows and the share of the row as written.
pub committed-save :
    (f : Subscription → Subscription) (i : ℕ) (s : Subscription) (rows : List Subscription)
    → KeepsKey f
    → IsKeyed rows
    → find_subscription i rows ≡ some s
    → committed_slots none (save_rows f i rows) ≡ committed_slots (some i) rows + share (f s)
unfolding find_subscription save_rows committed_slots share
committed-save f i s [] p k h = ground arith
committed-save f i s (r ∷ rows) p k h = ground (
  arith,
  p r,
  committed-save f i s rows p k.1,
  committed-excluding_none i rows,
  save_rows-absent f i rows,
)

pub AreBelow-suc : (n : ℕ) (rows : List Subscription) → AreBelow n rows → AreBelow (suc n) rows
AreBelow-suc n [] h = tt
AreBelow-suc n (r ∷ rows) h = (omega arith, AreBelow-suc n rows h.1)

-- A save touches no other row.
pub find-save_ne :
    (f : Subscription → Subscription) (i j : ℕ) (rows : List Subscription)
    → KeepsKey f
    → i ≢ j
    → find_subscription j (save_rows f i rows) ≡ find_subscription j rows
unfolding find_subscription save_rows
find-save_ne f i j [] k ne = refl
find-save_ne f i j (r ∷ rows) k ne = ground (arith, k r, find-save_ne f i j rows k ne)

-- Rows that a query read, as they stand in the table.
abbrev pub AreLoaded : List Subscription → List Subscription → Type 0
AreLoaded read rows = All (λ s. find_subscription s.id rows ≡ some s) read

-- A list of rows without the key i is not touched by a save at i.
pub save-AreLoaded :
    (f : Subscription → Subscription) (i : ℕ) (read rows : List Subscription)
    → KeepsKey f
    → find_subscription i read ≡ none
    → AreLoaded read rows
    → AreLoaded read (save_rows f i rows)
unfolding find_subscription
save-AreLoaded f i [] rows k absent h = tt
save-AreLoaded f i (s ∷ read) rows k absent h = elim (Bool-cases (s.id == i)) [
  | inl same ↦ absurd (ground arith)
  | inr other ↦ (
    find-save_ne f i s.id rows k (ground arith) ∙ h.0,
    save-AreLoaded f i read rows k (ground arith) h.1,
  )
]

AreLoaded-cons :
    (r : Subscription) (read rows : List Subscription)
    → find_subscription r.id read ≡ none
    → AreLoaded read rows
    → AreLoaded read (r ∷ rows)
unfolding find_subscription
AreLoaded-cons r [] rows absent h = tt
AreLoaded-cons r (s ∷ read) rows absent h =
    (ground (arith, h.0), AreLoaded-cons r read rows (ground arith) h.1)

find-keep :
    (p : Subscription → Bool) (i : ℕ) (rows : List Subscription)
    → find_subscription i rows ≡ none
    → find_subscription i (keep p rows) ≡ none
unfolding find_subscription keep
find-keep p i [] h = refl
find-keep p i (r ∷ rows) h = ground (arith, find-keep p i rows)

pub keep-IsKeyed :
    (p : Subscription → Bool) (rows : List Subscription) → IsKeyed rows → IsKeyed (keep p rows)
unfolding keep
keep-IsKeyed p [] h = tt
keep-IsKeyed p (r ∷ rows) h = ground (arith, find-keep p r.id rows h.0, keep-IsKeyed p rows h.1)

pub keep-AreLoaded :
    (p : Subscription → Bool) (rows : List Subscription)
    → IsKeyed rows
    → AreLoaded (keep p rows) rows
unfolding keep find_subscription
keep-AreLoaded p [] h = tt
keep-AreLoaded p (r ∷ rows) h = elim (Bool-cases (p r)) [
  | inl kept ↦ rw kept (
    ground arith,
    AreLoaded-cons r (keep p rows) rows (find-keep p r.id rows h.0) (keep-AreLoaded p rows h.1),
  )
  | inr dropped ↦
      rw dropped (
        AreLoaded-cons r (keep p rows) rows (find-keep p r.id rows h.0) (keep-AreLoaded p rows h.1))
]
