-- ===== src/Billing/Commitment.antt =====
-- The promise of capacity.py: what the subscriptions in service engage never exceeds the platform's
-- pool. Each operation on a subscription that was read from the table keeps it.
pub mod Operations
pub mod Sweeps
pub mod Edits
pub mod Reach
use rssi_as_a_service.Prelude.{
  ℕ, suc, ◌+◌, ◌<◌, ◌≤◌, ◌≡◌, refl, sym, ap, ◌∙◌, Bool, true, false, List, [], ◌∷◌, Option, none,
  some, Result, ok, err, ◌>>=◌, guard, or_raise, or_else, arith, Bool-cases, Option-cases, inl, inr,
  String, get_or, ltb, if◌then◌else◌, ◌==◌,
}
use rssi_as_a_service.Billing.Model.{
  Plan, Tenant, Subscription, Status, Period, Reason, SubscriptionEvent, Db, Env, is_active,
  is_operational, monitored_assets_quota, find_subscription, save_rows, save,
}
use rssi_as_a_service.Billing.Capacity.{
  PlatformCapacityError, committed_slots, monitored_slots_committed,
  ensure_monitored_slots_available, check_alert_thresholds,
}
use rssi_as_a_service.Billing.Capacity.Alerts.{check_alert_thresholds-SameRows}
use rssi_as_a_service.Billing.Lifecycle.{
  BillingError, capacity_guard, start_trial, new_trial, activate, reactivation_guard, suspend,
  cancel, change_plan, upgrade_guard, set_trial_end, has_subscription, get_default_trial_plan,
  record_event,
}
use rssi_as_a_service.Billing.Rows.{
  IsKeyed, AreBelow, KeepsKey, share, find-AreBelow, save-IsKeyed, save-AreBelow, committed-split,
  committed-save, committed-excluding_none,
}

-- The table's keys are distinct and drawn from the sequence, and the slots engaged fit the pool.
pub record Fits (pool : ℕ) (db : Db) : Type 0 where
  pub keyed : IsKeyed db.subscriptions
  pub below : AreBelow db.next_subscription db.subscriptions
  pub engaged : monitored_slots_committed db ≤ pool

-- The subscription is the row as it stands in the table.
abbrev pub IsLoaded : Subscription → Db → Type 0
IsLoaded s db = find_subscription s.id db.subscriptions ≡ some s

-- A guard that passes leaves room for what it was asked, beside the others.
pub ensure-fits :
    (env : Env) (n : ℕ) (excluding : Option ℕ) (db : Db)
    → ensure_monitored_slots_available env n excluding db ≡ ok tt
    → committed_slots excluding db.subscriptions ≤ env.monitored_slot_pool
    → committed_slots excluding db.subscriptions + n ≤ env.monitored_slot_pool
unfolding ensure_monitored_slots_available
ensure-fits env n excluding db h room = ground arith

-- A save by which the row's share and the others' fit the pool.
pub save-Fits :
    (pool : ℕ) (f : Subscription → Subscription) (s : Subscription) (db : Db)
    → KeepsKey f
    → Fits pool db
    → IsLoaded s db
    → committed_slots (some s.id) db.subscriptions + share (f s) ≤ pool
    → Fits pool (save f s.id db)
unfolding monitored_slots_committed
save-Fits pool f s db k v l room = record {
  keyed = save-IsKeyed f s.id db.subscriptions k v.keyed;
  below = save-AreBelow f s.id db.next_subscription db.subscriptions k v.below;
  engaged = omega (arith, committed-save f s.id s db.subscriptions k v.keyed l);
}

-- The others and the row fit together.
pub others-fit :
    (pool : ℕ) (s : Subscription) (db : Db)
    → Fits pool db
    → IsLoaded s db
    → committed_slots (some s.id) db.subscriptions + share s ≤ pool
unfolding monitored_slots_committed
others-fit pool s db v l =
    let engaged : monitored_slots_committed db ≤ pool = v.engaged in
    omega (arith, committed-split s.id s db.subscriptions v.keyed l, engaged)

-- What leaves the table alone keeps the promise.
pub SameRows-Fits :
    (pool : ℕ) (a b : Db)
    → a.subscriptions ≡ b.subscriptions
    → a.next_subscription ≡ b.next_subscription
    → Fits pool b
    → Fits pool a
unfolding monitored_slots_committed
SameRows-Fits pool a b rows next v = record {
  keyed = rw rows v.keyed;
  below = rw (rows, next) v.below;
  engaged = rw rows v.engaged;
}

pub alerts-Fits :
    (pool : ℕ) (env : Env) (db : Db) → Fits pool db → Fits pool (check_alert_thresholds env db)
alerts-Fits pool env db v =
    let same = check_alert_thresholds-SameRows env db in
    SameRows-Fits pool (check_alert_thresholds env db) db same.0 same.1 v

-- What an operation that may raise has done: nothing, or a database that keeps the promise.
abbrev pub Kept : {A : Type 0} → ℕ → Result BillingError (A × Db) → Type 0
Kept pool (ok (_, db)) = Fits pool db
Kept pool (err _) = Unit

-- After a guard there is only the case in which it passed.
pub guarded-Kept :
    {A : Type 0} (pool : ℕ) (g : Result BillingError (Unit {0})) (k : Result BillingError (A × Db))
    → (g ≡ ok tt → Kept pool k)
    → Kept pool (g >>= λ _. k)
guarded-Kept pool (ok tt) k h = h refl
guarded-Kept pool (err e) k h = tt

pub capacity_guard-ok :
    (g : Result PlatformCapacityError (Unit {0})) → capacity_guard g ≡ ok tt → g ≡ ok tt
capacity_guard-ok (ok tt) h = refl
capacity_guard-ok (err e) h = cc

-- A save, its event and the alerts after it.
pub written-Fits :
    (env : Env) (f : Subscription → Subscription) (s : Subscription) (e : SubscriptionEvent)
    (db : Db)
    → KeepsKey f
    → Fits env.monitored_slot_pool db
    → IsLoaded s db
    → committed_slots (some s.id) db.subscriptions + share (f s) ≤ env.monitored_slot_pool
    → Fits env.monitored_slot_pool (record_event e (save f s.id db))
written-Fits env f s e db k v l room =
    SameRows-Fits env.monitored_slot_pool (record_event e (save f s.id db)) (save f s.id db) refl
      refl (save-Fits env.monitored_slot_pool f s db k v l room)

module _ (env : Env) (s : Subscription) (db : Db) (v : Fits env.monitored_slot_pool db)
    (l : IsLoaded s db) where
  pub room_for :
      (n : ℕ)
      → capacity_guard (ensure_monitored_slots_available env n (some s.id) db) ≡ ok tt
      → committed_slots (some s.id) db.subscriptions + n ≤ env.monitored_slot_pool
  room_for n g =
      let others = others-fit env.monitored_slot_pool s db v l in
      ensure-fits env n (some s.id) db (capacity_guard-ok _ g) (omega arith)

  pub reactivation_room :
      reactivation_guard env s db ≡ ok tt
      → committed_slots (some s.id) db.subscriptions + monitored_assets_quota s
        ≤ env.monitored_slot_pool
  unfolding reactivation_guard
  reactivation_room g = elim (Bool-cases (is_operational s)) [
    | inl busy ↦
        let others = others-fit env.monitored_slot_pool s db v l in
        unfold share in (rw busy at others)
    | inr idle ↦ room_for (monitored_assets_quota s) (rw idle at g)
  ]
