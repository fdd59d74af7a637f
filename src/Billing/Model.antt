-- ===== src/Billing/Model.antt =====
-- backend/apps/billing/models.py, and the rows of other apps that billing counts.
-- A moment is a number of seconds; a price is a number of cents. `Subscription.plan` holds the offer
-- that the foreign key names, as `select_related("plan")` reads it; `save_plan` keeps the two in step.
use rssi_as_a_service.Prelude.{
  ℕ, String, Bool, true, false, List, [], ◌∷◌, Option, none, some, ◌==◌, get_or, if◌then◌else◌,
  contains,
}
use rssi_as_a_service.Billing.Features.{sanitize}

pub data PlanStatus : Type 0 where
  draft published retired internal : PlanStatus

pub data Status : Type 0 where
  trial active suspended cancelled expired : Status

pub data Period : Type 0 where
  monthly yearly : Period

pub record Plan : Type 0 where
  pub id : ℕ
  pub code : String
  pub name : String
  pub tagline : String
  pub description : String
  pub price_monthly : ℕ
  pub price_yearly : ℕ
  pub currency : String
  pub is_quote_only : Bool
  pub status : PlanStatus
  pub display_order : ℕ
  pub is_highlighted : Bool
  pub monitored_assets : ℕ
  pub monthly_scans : ℕ
  pub max_users : ℕ
  pub watched_accounts : ℕ
  pub monthly_watched_account_scans : ℕ
  pub features : List String

pub record Tenant : Type 0 where
  pub id : ℕ
  pub name : String

pub record Subscription : Type 0 where
  pub id : ℕ
  pub tenant : Tenant
  pub plan : Plan
  pub status : Status
  pub period : Period
  pub started_at : ℕ
  pub trial_ends_at : Option ℕ
  pub renews_at : Option ℕ
  pub ends_at : Option ℕ
  pub override_monitored_assets : Option ℕ
  pub override_monthly_scans : Option ℕ
  pub override_max_users : Option ℕ
  pub override_watched_accounts : Option ℕ
  pub override_monthly_watched_account_scans : Option ℕ
  pub override_features : Option (List String)
  pub internal_notes : String

abbrev pub is_published : PlanStatus → Bool
is_published published = true
is_published _ = false

abbrev pub is_internal : PlanStatus → Bool
is_internal internal = true
is_internal _ = false

abbrev pub is_trial : Status → Bool
is_trial trial = true
is_trial _ = false

abbrev pub is_active : Status → Bool
is_active active = true
is_active _ = false

-- `self.status in (TRIAL, ACTIVE)`
abbrev pub in_service : Status → Bool
in_service trial = true
in_service active = true
in_service _ = false

unfoldable pub is_operational : Subscription → Bool
is_operational s = in_service s.status

unfoldable pub enabled_features : Plan → List String
enabled_features p = sanitize p.features

-- `Plan.has_feature`
unfoldable pub plan_has_feature : Plan → String → Bool
unfolding enabled_features
plan_has_feature p key = contains (enabled_features p) key

unfoldable pub monitored_assets_quota : Subscription → ℕ
monitored_assets_quota s = get_or s.override_monitored_assets s.plan.monitored_assets

unfoldable pub monthly_scans_quota : Subscription → ℕ
monthly_scans_quota s = get_or s.override_monthly_scans s.plan.monthly_scans

unfoldable pub watched_accounts_quota : Subscription → ℕ
watched_accounts_quota s = get_or s.override_watched_accounts s.plan.watched_accounts

unfoldable pub monthly_watched_account_scans_quota : Subscription → ℕ
monthly_watched_account_scans_quota s =
    get_or s.override_monthly_watched_account_scans s.plan.monthly_watched_account_scans

unfoldable pub max_users_quota : Subscription → ℕ
max_users_quota s = get_or s.override_max_users s.plan.max_users

unfoldable pub effective_features : Subscription → List String
effective_features s = sanitize (get_or s.override_features s.plan.features)

-- Why a transition was made: the caller's text, or the sentence that the code builds.
pub data Reason : Type 0 where
  text : String → Reason
  trial_opened : ℕ → Reason
  subscription_activated subscription_suspended subscription_cancelled : Reason
  plan_changed : String → String → Reason
  trial_period_over : Reason
  trial_end_moved : ℕ → Option ℕ → Reason
  quotas_changed features_composed features_restored : Reason
  moved_to_trial_plan : Reason

pub record SubscriptionEvent : Type 0 where
  pub subscription : ℕ
  pub from_status : Option Status
  pub to_status : Status
  pub from_plan : String
  pub to_plan : String
  pub reason : Reason
  pub actor : Option ℕ

pub record Payment : Type 0 where
  pub subscription : ℕ
  pub amount : ℕ
  pub currency : String
  pub received_at : ℕ
  pub reference : String
  pub note : String
  pub recorded_by : Option ℕ

-- threat_intelligence: one row for each provider call, each watched asset, each named account.
pub record BreachIntelligenceUsage : Type 0 where
  pub tenant : ℕ
  pub endpoint : String
  pub created_at : ℕ
  pub requests_consumed : ℕ

pub record MonitoredAsset : Type 0 where
  pub tenant : ℕ
  pub is_active : Bool

pub record WatchedAccount : Type 0 where
  pub tenant : ℕ
  pub is_active : Bool

-- tenants.Membership
pub record Membership : Type 0 where
  pub tenant : ℕ
  pub user : ℕ

-- The scarce resources of `capacity.snapshot`.
pub data Resource : Type 0 where
  monitored_slots monthly_scans : Resource

-- `_ALERT_CACHE_KEY`: the resource, the month, and the threshold as a whole number.
pub record AlertKey : Type 0 where
  pub resource : Resource
  pub month : ℕ
  pub threshold : ℕ

-- The database, the cache keys that are set, and the alerts that left by mail.
pub record Db : Type 0 where
  pub plans : List Plan
  pub subscriptions : List Subscription
  pub next_subscription : ℕ
  pub next_plan : ℕ
  pub events : List SubscriptionEvent
  pub payments : List Payment
  pub usages : List BreachIntelligenceUsage
  pub monitored : List MonitoredAsset
  pub watched : List WatchedAccount
  pub memberships : List Membership
  pub alert_cache : List AlertKey
  pub alert_mails : List AlertKey

-- What the code reads from outside: the clock, with `month` its year and month and `month_start` the
-- first instant of that month, the settings, and whether the mail server takes an alert.
pub record Env : Type 0 where
  pub now : ℕ
  pub month : ℕ
  pub month_start : ℕ
  pub monitored_slot_pool : ℕ
  pub monthly_scan_cap : ℕ
  pub alert_warning_ratio : ℕ
  pub alert_critical_ratio : ℕ
  pub platform_alert_email : String
  pub default_trial_plan_code : String
  pub trial_days : ℕ
  pub mail_sent : AlertKey → Bool
  pub cache_written : AlertKey → Bool

-- The row with this key.
unfoldable pub find_subscription : ℕ → List Subscription → Option Subscription
find_subscription i [] = none
find_subscription i (r ∷ rows) =
    let rest = find_subscription i rows in if r.id == i then some r else rest

-- `save(update_fields=…)`: the fields that `f` writes, in the row with this key.
unfoldable pub save_rows : (Subscription → Subscription) → ℕ → List Subscription → List Subscription
save_rows f i [] = []
save_rows f i (r ∷ rows) = (if r.id == i then f r else r) ∷ save_rows f i rows

abbrev pub save : (Subscription → Subscription) → ℕ → Db → Db
save f i db = record db { subscriptions = save_rows f i db.subscriptions }

-- `Plan.save()`, seen through the foreign key of every subscription to it.
unfoldable pub save_plan_rows : Plan → List Plan → List Plan
save_plan_rows p [] = []
save_plan_rows p (q ∷ rows) = (if q.id == p.id then p else q) ∷ save_plan_rows p rows

unfoldable pub reread_plan : Plan → List Subscription → List Subscription
reread_plan p [] = []
reread_plan p (r ∷ rows) =
    (if r.plan.id == p.id then record r { plan = p } else r) ∷ reread_plan p rows

abbrev pub save_plan : Plan → Db → Db
save_plan p db = record db {
  plans = save_plan_rows p db.plans;
  subscriptions = reread_plan p db.subscriptions;
}
