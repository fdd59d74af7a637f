-- ===== src/Billing/Lifecycle.antt =====
-- backend/apps/billing/services.py, the life of a subscription: every operation is one transaction,
-- takes the subscription as it was loaded, and returns it with the database that it leaves.
use rssi_as_a_service.Prelude.{
  take_text, ℕ, suc, ◌+◌, ◌*◌, String, Bool, false, ◌&&◌, ◌||◌, not, List, [], ◌∷◌, Option, none,
  some, ltb, leb, ◌==◌, str_eq, if◌then◌else◌, Result, ok, err, guard, or_raise, ◌>>=◌, ◌>>◌, first,
  or_else, get_or, keep, sort_by, some_of,
}
use rssi_as_a_service.Billing.Features.{Problem}
use rssi_as_a_service.Billing.Model.{
  Plan, Tenant, Subscription, Status, trial, active, suspended, cancelled, expired, Period, monthly,
  yearly, is_published, is_trial, is_active, is_operational, monitored_assets_quota, Reason, text,
  trial_opened, subscription_activated, subscription_suspended, subscription_cancelled,
  plan_changed, trial_period_over, trial_end_moved, SubscriptionEvent, Payment, Db, Env, save,
}
use rssi_as_a_service.Billing.Capacity.{
  PlatformCapacityError, ensure_monitored_slots_available, check_alert_thresholds,
}

-- The refusals of the module: `BillingError`, and the capacity guard's own.
pub data BillingError : Type 0 where
  already_subscribed no_plan_available not_in_trial : BillingError
  capacity_refused : PlatformCapacityError → BillingError
  code_taken : String → BillingError
  plan_in_use : ℕ → BillingError
  plan_missing : BillingError
  composition_refused : List Problem → BillingError

abbrev pub capacity_guard : Result PlatformCapacityError (Unit {0}) → Result BillingError (Unit {0})
capacity_guard (ok u) = ok u
capacity_guard (err e) = err (capacity_refused e)

abbrev pub day : ℕ
day = 86400

-- `reason or default`
unfoldable pub reason_or : String → Reason → Reason
unfolding take_text
reason_or reason default = if str_eq reason "" then default else text (take_text 255 reason)

abbrev pub record_event : SubscriptionEvent → Db → Db
record_event e db = record db { events = e ∷ db.events }

-- An event that concerns the status alone.
abbrev pub status_event : Subscription → Status → Reason → Option ℕ → SubscriptionEvent
status_event s to_status reason actor = record {
  subscription = s.id;
  from_status = some s.status;
  to_status = to_status;
  from_plan = "";
  to_plan = "";
  reason = reason;
  actor = actor;
}

-- `order_by("display_order", "price_monthly")`
abbrev pub plan_le : Plan → Plan → Bool
plan_le p q =
    ltb p.display_order q.display_order
    || (p.display_order == q.display_order && leb p.price_monthly q.price_monthly)

unfoldable pub list_published_plans : List Plan → List Plan
list_published_plans plans = sort_by plan_le (keep (λ p. is_published p.status) plans)

unfoldable pub find_plan_code : String → List Plan → Option Plan
find_plan_code code [] = none
find_plan_code code (p ∷ plans) =
    let rest = find_plan_code code plans in if str_eq p.code code then some p else rest

unfoldable pub get_default_trial_plan : Env → List Plan → Option Plan
unfolding list_published_plans find_plan_code
get_default_trial_plan env plans =
    let fallback = first (list_published_plans plans) in
    if str_eq env.default_trial_plan_code ""
    then fallback
    else or_else (find_plan_code env.default_trial_plan_code plans) fallback

unfoldable pub has_subscription : ℕ → List Subscription → Bool
has_subscription tenant rows = some_of (λ s. s.tenant.id == tenant) rows

-- `Subscription.objects.create(…)` in `start_trial`
unfoldable pub new_trial : ℕ → Tenant → Plan → ℕ → ℕ → Subscription
new_trial i tenant plan now days = record {
  id = i;
  tenant = tenant;
  plan = plan;
  status = trial;
  period = monthly;
  started_at = now;
  trial_ends_at = some (now + days * day);
  renews_at = none;
  ends_at = none;
  override_monitored_assets = none;
  override_monthly_scans = none;
  override_max_users = none;
  override_watched_accounts = none;
  override_monthly_watched_account_scans = none;
  override_features = none;
  internal_notes = "";
}

-- What `start_trial` writes once its guards have passed.
unfoldable pub open_trial : Env → Tenant → Plan → Option ℕ → ℕ → Db → Subscription × Db
unfolding new_trial
open_trial env tenant plan actor days db =
    let s = new_trial db.next_subscription tenant plan env.now days in
    let created = record db {
      subscriptions = s ∷ db.subscriptions;
      next_subscription = suc db.next_subscription;
    } in
    let event : SubscriptionEvent = record {
      subscription = s.id;
      from_status = none;
      to_status = trial;
      from_plan = "";
      to_plan = plan.name;
      reason = trial_opened days;
      actor = actor;
    } in
    (s, check_alert_thresholds env (record_event event created))

unfoldable pub start_trial :
    Env → Tenant → Option Plan → Option ℕ → Option ℕ → Db → Result BillingError (Subscription × Db)
unfolding open_trial
start_trial env tenant plan actor days db = do
  guard (not (has_subscription tenant.id db.subscriptions)) already_subscribed
  p ← or_raise (or_else plan (get_default_trial_plan env db.plans)) no_plan_available
  capacity_guard (ensure_monitored_slots_available env p.monitored_assets none db)
  ok (open_trial env tenant p actor (get_or days env.trial_days) db)

abbrev pub period_length : Period → ℕ
period_length monthly = 30 * day
period_length yearly = 365 * day

-- What `activate` writes.
abbrev pub set_active : Period → ℕ → Subscription → Subscription
set_active period renews s = record s {
  status = active;
  period = period;
  renews_at = some renews;
  ends_at = none;
}

-- A subscription that is not in service engages its slots anew.
unfoldable pub reactivation_guard : Env → Subscription → Db → Result BillingError (Unit {0})
unfolding is_operational
reactivation_guard env s db =
    if is_operational s
    then ok tt
    else capacity_guard
        (ensure_monitored_slots_available env (monitored_assets_quota s) (some s.id) db)

unfoldable pub activate :
    Env
    → Subscription
    → Option Period
    → Option ℕ
    → String
    → Db
    → Result BillingError (Subscription × Db)
unfolding reactivation_guard
activate env s period actor reason db = if is_active s.status then ok (s, db) else do
  reactivation_guard env s db
  let length = get_or period s.period
  let write = set_active length (env.now + period_length length)
  let event = status_event s active (reason_or reason subscription_activated) actor
  ok (write s, check_alert_thresholds env (record_event event (save write s.id db)))

abbrev pub set_suspended : Subscription → Subscription
set_suspended s = record s { status = suspended }

unfoldable pub suspend : Subscription → Option ℕ → String → Db → Subscription × Db
suspend s actor reason db =
    let event = status_event s suspended (reason_or reason subscription_suspended) actor in
    (set_suspended s, record_event event (save set_suspended s.id db))

abbrev pub set_cancelled : ℕ → Subscription → Subscription
set_cancelled now s = record s { status = cancelled; ends_at = some now }

unfoldable pub cancel : Env → Subscription → Option ℕ → String → Db → Subscription × Db
cancel env s actor reason db =
    let event = status_event s cancelled (reason_or reason subscription_cancelled) actor in
    (set_cancelled env.now s, record_event event (save (set_cancelled env.now) s.id db))

-- What `change_plan` writes.
abbrev pub set_plan : Plan → Subscription → Subscription
set_plan plan s = record s {
  plan = plan;
  override_monitored_assets = none;
  override_monthly_scans = none;
  override_max_users = none;
  override_features = none;
}

-- The guard of `change_plan`, where the new quota is greater.
unfoldable pub upgrade_guard : Env → Subscription → Plan → Db → Result BillingError (Unit {0})
unfolding is_operational
upgrade_guard env s plan db =
    if is_operational s && ltb (monitored_assets_quota s) plan.monitored_assets
    then capacity_guard (ensure_monitored_slots_available env plan.monitored_assets (some s.id) db)
    else ok tt

unfoldable pub change_plan :
    Env → Subscription → Plan → Option ℕ → String → Db → Result BillingError (Subscription × Db)
unfolding upgrade_guard
change_plan env s plan actor reason db = if plan.id == s.plan.id then ok (s, db) else do
  upgrade_guard env s plan db
  let event : SubscriptionEvent = record {
    subscription = s.id;
    from_status = some s.status;
    to_status = s.status;
    from_plan = s.plan.name;
    to_plan = plan.name;
    reason = reason_or reason (plan_changed s.plan.name plan.name);
    actor = actor;
  }
  ok (
    set_plan plan s,
    check_alert_thresholds env (record_event event (save (set_plan plan) s.id db)),
  )

-- `status=TRIAL, trial_ends_at__lte=now`; a row with no end of trial is never due.
abbrev pub ends_by : ℕ → Option ℕ → Bool
ends_by now none = false
ends_by now (some t) = leb t now

abbrev pub is_due : ℕ → Subscription → Bool
is_due now s = is_trial s.status && ends_by now s.trial_ends_at

abbrev pub set_expired : ℕ → Subscription → Subscription
set_expired now s = record s { status = expired; ends_at = some now }

-- The loop of `expire_due_trials`, over the rows that the query read.
unfoldable pub expire_each : ℕ → List Subscription → ℕ → Db → ℕ × Db
expire_each now [] count db = (count, db)
expire_each now (s ∷ due) count db =
    let event = status_event s expired trial_period_over none in
    expire_each now due (suc count) (record_event event (save (set_expired now) s.id db))

unfoldable pub expire_due_trials : ℕ → Db → ℕ × Db
unfolding expire_each
expire_due_trials now db = expire_each now (keep (is_due now) db.subscriptions) 0 db

unfoldable pub record_payment :
    Subscription → ℕ → ℕ → String → String → Option ℕ → Db → Payment × Db
record_payment s amount received_at reference note actor db =
    let payment : Payment = record {
      subscription = s.id;
      amount = amount;
      currency = s.plan.currency;
      received_at = received_at;
      reference = reference;
      note = note;
      recorded_by = actor;
    } in
    (payment, record db { payments = payment ∷ db.payments })

abbrev pub set_trial_ends_at : ℕ → Subscription → Subscription
set_trial_ends_at ends_at s = record s { trial_ends_at = some ends_at }

unfoldable pub set_trial_end :
    Subscription → ℕ → Option ℕ → String → Db → Result BillingError (Subscription × Db)
set_trial_end s ends_at actor reason db = do
  guard (is_trial s.status) not_in_trial
  let moved = reason_or reason (trial_end_moved ends_at s.trial_ends_at)
  let event = status_event s s.status moved actor
  ok (set_trial_ends_at ends_at s, record_event event (save (set_trial_ends_at ends_at) s.id db))
