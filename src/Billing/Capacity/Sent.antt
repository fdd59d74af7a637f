-- ===== src/Billing/Capacity/Sent.antt =====
-- backend/apps/billing/capacity.py, `check_alert_thresholds`: that the alerts which are due leave.
use rssi_as_a_service.Prelude.{
  ◌≡◌, ◌⊎◌, inl, inr, Bool, true, false, List, [], ◌∷◌, All, some_of, arith, Bool-cases, ℕ,
}
use rssi_as_a_service.Billing.Model.{AlertKey, Db, Env}
use rssi_as_a_service.Billing.Capacity.{
  ResourceUsage, same_key, is_cached, is_silent, check_threshold, check_each, check_usages,
  alert_thresholds, alert_key, is_below,
}

-- The alert of this key has left.
abbrev pub is_mailed : AlertKey → Db → Bool
is_mailed k db = some_of (same_key k) db.alert_mails

-- Nothing is forgotten, no mail is taken back, and what is newly remembered has left.
abbrev pub Grows : Db → Db → Type 0
Grows db after =
    (k : AlertKey)
    → (is_cached k db ≡ true → is_cached k after ≡ true)
      × (is_mailed k db ≡ true → is_mailed k after ≡ true)
      × (is_cached k after ≡ true → (is_cached k db ≡ true) ⊎ (is_mailed k after ≡ true))

Grows-trans : (a b c : Db) → Grows a b → Grows b c → Grows a c
Grows-trans a b c f g k = ground (arith, f k, g k)

Grows-refl : (a : Db) → Grows a a
Grows-refl a k = ground arith

check_threshold-Grows :
    (env : Env) (u : ResourceUsage) (p : ℕ) (db : Db) → Grows db (check_threshold env u p db)
unfolding check_threshold is_cached some_of
check_threshold-Grows env u p db k = elim (Bool-cases (is_silent env u p db)) [
  | inl silent ↦ rw silent (ground arith)
  | inr sent ↦ rw sent (ground arith)
]

check_each-Grows :
    (env : Env) (u : ResourceUsage) (ps : List ℕ) (db : Db) → Grows db (check_each env u ps db)
unfolding check_each
check_each-Grows env u [] db = Grows-refl db
check_each-Grows env u (p ∷ ps) db =
    let one = check_threshold env u p db in
    Grows-trans db one (check_each env u ps one) (check_threshold-Grows env u p db)
      (check_each-Grows env u ps one)

check_usages-Grows :
    (env : Env) (us : List ResourceUsage) (db : Db) → Grows db (check_usages env us db)
unfolding check_usages
check_usages-Grows env [] db = Grows-refl db
check_usages-Grows env (u ∷ us) db =
    let one = check_each env u (alert_thresholds env) db in
    Grows-trans db one (check_usages env us one) (check_each-Grows env u (alert_thresholds env) db)
      (check_usages-Grows env us one)

-- The alert of a threshold that a resource has reached is remembered, where the mail server takes it.
abbrev Remembers : Env → Db → ResourceUsage → ℕ → Type 0
Remembers env after u p =
    is_below u p ≡ false
    → env.mail_sent (alert_key env u p) ≡ true
    → is_cached (alert_key env u p) after ≡ true

-- The alert of a threshold that a resource has reached leaves, where none had left before.
abbrev pub Leaves : Env → Db → Db → ResourceUsage → ℕ → Type 0
Leaves env db after u p =
    is_below u p ≡ false
    → env.mail_sent (alert_key env u p) ≡ true
    → is_cached (alert_key env u p) db ≡ false
    → is_mailed (alert_key env u p) after ≡ true

module _ (env : Env) (taken : (k : AlertKey) → env.cache_written k ≡ true) where
  check_threshold-Remembers :
      (u : ResourceUsage) (p : ℕ) (db : Db) → Remembers env (check_threshold env u p db) u p
  unfolding check_threshold is_silent is_cached some_of
  check_threshold-Remembers u p db reached sent =
      ground (arith, taken (alert_key env u p), reached, sent)

  check_each-Remembers :
      (u : ResourceUsage) (ps : List ℕ) (db : Db)
      → All (Remembers env (check_each env u ps db) u) ps
  unfolding check_each
  check_each-Remembers u [] db = tt
  check_each-Remembers u (p ∷ ps) db =
      let one = check_threshold env u p db in
      (
        (λ reached sent.
            (check_each-Grows env u ps one (alert_key env u p)).0
              (check_threshold-Remembers u p db reached sent)),
        check_each-Remembers u ps one,
      )

  keeps_remembering :
      (u : ResourceUsage) (ps : List ℕ) (db after : Db)
      → Grows db after
      → All (Remembers env db u) ps
      → All (Remembers env after u) ps
  keeps_remembering u [] db after grows h = tt
  keeps_remembering u (p ∷ ps) db after grows h = (
    (λ reached sent. (grows (alert_key env u p)).0 (h.0 reached sent)),
    keeps_remembering u ps db after grows h.1,
  )

  check_usages-Remembers :
      (us : List ResourceUsage) (db : Db)
      → All (λ u. All (Remembers env (check_usages env us db) u) (alert_thresholds env)) us
  unfolding check_usages
  check_usages-Remembers [] db = tt
  check_usages-Remembers (u ∷ us) db =
      let one = check_each env u (alert_thresholds env) db in
      (
        keeps_remembering u (alert_thresholds env) one (check_usages env us one)
            (check_usages-Grows env us one) (check_each-Remembers u (alert_thresholds env) db),
        check_usages-Remembers us one,
      )

  each-Leaves :
      (u : ResourceUsage) (ps : List ℕ) (db after : Db)
      → Grows db after
      → All (Remembers env after u) ps
      → All (Leaves env db after u) ps
  each-Leaves u [] db after grows h = tt
  each-Leaves u (p ∷ ps) db after grows h = (
    (λ reached sent new.
        let known = h.0 reached sent in ground (arith, (grows (alert_key env u p)).2 known, new)),
    each-Leaves u ps db after grows h.1,
  )

  usages-Leaves :
      (us : List ResourceUsage) (db after : Db)
      → Grows db after
      → All (λ u. All (Remembers env after u) (alert_thresholds env)) us
      → All (λ u. All (Leaves env db after u) (alert_thresholds env)) us
  usages-Leaves [] db after grows h = tt
  usages-Leaves (u ∷ us) db after grows h =
      (each-Leaves u (alert_thresholds env) db after grows h.0, usages-Leaves us db after grows h.1)

  pub check_usages-Leaves :
      (us : List ResourceUsage) (db : Db)
      → All (λ u. All (Leaves env db (check_usages env us db) u) (alert_thresholds env)) us
  check_usages-Leaves us db =
      usages-Leaves us db (check_usages env us db) (check_usages-Grows env us db)
        (check_usages-Remembers us db)
