-- ===== src/Billing/Capacity/Alerts.antt =====
-- What the loop of `check_alert_thresholds` does: it writes only its own cache and mails, and no
-- alert leaves twice.
use rssi_as_a_service.Prelude.{
  ℕ, ◌≡◌, refl, sym, subst, true, false, List, [], ◌∷◌, All, some_of, arith, str_eq, Bool-cases,
  inl, inr,
}
use rssi_as_a_service.Billing.Model.{AlertKey, Db, Env}
use rssi_as_a_service.Billing.Capacity.Sent.{Leaves, check_usages-Leaves}
use rssi_as_a_service.Billing.Capacity.{
  ResourceUsage, same_key, is_cached, is_silent, remember, check_threshold, check_each,
  check_usages, alert_thresholds, snapshot, check_alert_thresholds, alert_key,
}

-- The table of subscriptions, with its sequence, and all else that a guard reads.
abbrev pub SameRows : Db → Db → Type 0
SameRows a b =
    (a.subscriptions ≡ b.subscriptions)
    × (a.next_subscription ≡ b.next_subscription)
    × (a.plans ≡ b.plans)
    × (a.events ≡ b.events)

check_threshold-SameRows :
    (env : Env) (u : ResourceUsage) (p : ℕ) (db : Db) → SameRows (check_threshold env u p db) db
unfolding check_threshold
check_threshold-SameRows env u p db = ground arith

check_each-SameRows :
    (env : Env) (u : ResourceUsage) (ps : List ℕ) (db : Db) → SameRows (check_each env u ps db) db
unfolding check_each
check_each-SameRows env u [] db = (refl, refl, refl, refl)
check_each-SameRows env u (p ∷ ps) db = ground (
  arith,
  check_threshold-SameRows env u p db,
  check_each-SameRows env u ps (check_threshold env u p db),
)

check_usages-SameRows :
    (env : Env) (us : List ResourceUsage) (db : Db) → SameRows (check_usages env us db) db
unfolding check_usages
check_usages-SameRows env [] db = (refl, refl, refl, refl)
check_usages-SameRows env (u ∷ us) db =
    let ps = alert_thresholds env in
    ground (
      arith,
      check_each-SameRows env u ps db,
      check_usages-SameRows env us (check_each env u ps db),
    )

pub check_alert_thresholds-SameRows :
    (env : Env) (db : Db) → SameRows (check_alert_thresholds env db) db
unfolding check_alert_thresholds
check_alert_thresholds-SameRows env db = elim (Bool-cases (str_eq env.platform_alert_email "")) [
  | inl nobody ↦ rw nobody (refl, refl, refl, refl)
  | inr somebody ↦ rw somebody (check_usages-SameRows env (snapshot env db) db)
]

-- No key stands twice.
abbrev pub IsOnce : List AlertKey → Type 0
IsOnce [] = Unit
IsOnce (k ∷ ks) = (some_of (same_key k) ks ≡ false) × IsOnce ks

-- Every alert that left is remembered, and none left twice.
pub record IsDeduped (db : Db) : Type 0 where
  pub once : IsOnce db.alert_mails
  pub remembered : All (λ k. some_of (same_key k) db.alert_cache ≡ true) db.alert_mails

same_key_trans : (a b c : AlertKey) → same_key a b ≡ true → same_key b c ≡ same_key a c
same_key_trans a b c h = ground arith

some_of-same_key :
    (a b : AlertKey) (ks : List AlertKey)
    → same_key a b ≡ true
    → some_of (same_key b) ks ≡ some_of (same_key a) ks
unfolding some_of
some_of-same_key a b [] h = refl
some_of-same_key a b (k ∷ ks) h = rw (same_key_trans a b k h, some_of-same_key a b ks h)

-- A key that is not in the cache is that of no alert sent.
unsent :
    (k : AlertKey) (cache mails : List AlertKey)
    → All (λ m. some_of (same_key m) cache ≡ true) mails
    → some_of (same_key k) cache ≡ false
    → some_of (same_key k) mails ≡ false
unfolding some_of
unsent k cache [] h e = refl
unsent k cache (m ∷ ms) h e = elim (Bool-cases (same_key k m)) [
  | inl alike ↦ cc (h.0, some_of-same_key k m cache alike, e)
  | inr other ↦ rw other (unsent k cache ms h.1 e)
]

remembered_more :
    (k : AlertKey) (cache mails : List AlertKey)
    → All (λ m. some_of (same_key m) cache ≡ true) mails
    → All (λ m. some_of (same_key m) (k ∷ cache) ≡ true) mails
unfolding some_of
remembered_more k cache [] h = tt
remembered_more k cache (m ∷ ms) h = (ground (arith, h.0), remembered_more k cache ms h.1)

same_key_refl : (k : AlertKey) → same_key k k ≡ true
same_key_refl k = ground arith

remember-IsDeduped :
    (env : Env) (key : AlertKey) (db : Db)
    → env.cache_written key ≡ true
    → is_cached key db ≡ false
    → IsDeduped db
    → IsDeduped (remember env key db)
unfolding is_cached some_of
remember-IsDeduped env key db written new h =
    let kept : (remember env key db).alert_cache ≡ key ∷ db.alert_cache = rw written refl in
    record {
      once = (unsent key db.alert_cache db.alert_mails h.remembered new, h.once);
      remembered =
          subst (λ ks. All (λ m. some_of (same_key m) ks ≡ true) (key ∷ db.alert_mails)) (sym kept)
            (
              rw (same_key_refl key) refl,
              remembered_more key db.alert_cache db.alert_mails h.remembered,
            );
    }

silent-uncached :
    (env : Env) (u : ResourceUsage) (p : ℕ) (db : Db)
    → is_silent env u p db ≡ false
    → is_cached (alert_key env u p) db ≡ false
unfolding is_silent
silent-uncached env u p db h = ground arith

check_threshold-IsDeduped :
    (env : Env) (u : ResourceUsage) (p : ℕ) (db : Db)
    → ((k : AlertKey) → env.cache_written k ≡ true)
    → IsDeduped db
    → IsDeduped (check_threshold env u p db)
unfolding check_threshold
check_threshold-IsDeduped env u p db taken h = elim (Bool-cases (is_silent env u p db)) [
  | inl silent ↦ rw silent h
  | inr sent ↦ rw sent (
      remember-IsDeduped env (alert_key env u p) db (taken (alert_key env u p))
        (silent-uncached env u p db sent) h)
]

check_each-IsDeduped :
    (env : Env) (u : ResourceUsage) (ps : List ℕ) (db : Db)
    → ((k : AlertKey) → env.cache_written k ≡ true)
    → IsDeduped db
    → IsDeduped (check_each env u ps db)
unfolding check_each
check_each-IsDeduped env u [] db taken h = h
check_each-IsDeduped env u (p ∷ ps) db taken h =
    check_each-IsDeduped env u ps (check_threshold env u p db) taken
      (check_threshold-IsDeduped env u p db taken h)

check_usages-IsDeduped :
    (env : Env) (us : List ResourceUsage) (db : Db)
    → ((k : AlertKey) → env.cache_written k ≡ true)
    → IsDeduped db
    → IsDeduped (check_usages env us db)
unfolding check_usages
check_usages-IsDeduped env [] db taken h = h
check_usages-IsDeduped env (u ∷ us) db taken h =
    let ps = alert_thresholds env in
    check_usages-IsDeduped env us (check_each env u ps db) taken
      (check_each-IsDeduped env u ps db taken h)

-- While every write of the cache goes through, and where no alert of a resource, a month and a
-- threshold has left twice so far and each one that left is remembered, a pass of
-- `check_alert_thresholds` keeps both so, whatever the mail server takes; and where there is somebody
-- to alert, the alert of each threshold that a resource has reached leaves, if it is not remembered
-- yet and the mail server takes it.
pub check_alert_thresholds-IsDeduped :
    (env : Env) (db : Db)
    → ((k : AlertKey) → env.cache_written k ≡ true)
    → IsDeduped db
    → let after = check_alert_thresholds env db in
      IsDeduped after
      × (str_eq env.platform_alert_email "" ≡ false
          → All (λ u. All (Leaves env db after u) (alert_thresholds env)) (snapshot env db))
unfolding check_alert_thresholds
check_alert_thresholds-IsDeduped env db taken h =
    elim (Bool-cases (str_eq env.platform_alert_email "")) [
      | inl nobody ↦ rw nobody (h, (λ e. cc e))
      | inr somebody ↦ rw somebody (
        check_usages-IsDeduped env (snapshot env db) db taken h,
        (λ e. check_usages-Leaves env taken (snapshot env db) db),
      )
    ]
