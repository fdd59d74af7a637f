-- ===== src/Billing/Entitlements.antt =====
-- backend/apps/billing/entitlements.py: the rights that a client's subscription gives, and the
-- refusals. A refusal carries what the interface builds its message from.
pub mod Guards
pub mod Offers
pub mod Summary
use rssi_as_a_service.Prelude.{
  ℕ, ◌+◌, ◌-◌, String, Bool, true, false, ◌&&◌, ◌||◌, not, List, [], ◌∷◌, Option, none, some, ltb,
  leb, ◌==◌, str_eq, if◌then◌else◌, Result, ok, err, guard, or_raise, ◌>>=◌, ◌>>◌, first, keep,
  contains, count_of, sort_by,
}
use rssi_as_a_service.Billing.Model as M
use rssi_as_a_service.Billing.Model.{
  Plan, Subscription, Status, Db, Env, is_published, is_operational, effective_features,
  plan_has_feature, monitored_assets_quota, monthly_scans_quota, watched_accounts_quota,
  monthly_watched_account_scans_quota, max_users_quota,
}

-- `EntitlementError`: its reason, with what the message quotes.
pub data EntitlementError : Type 0 where
  feature_missing : (feature_key : String) (required_plan : Option Plan) → EntitlementError
  no_subscription : EntitlementError
  not_operational : Status → EntitlementError
  quota_reached : (quota remaining : ℕ) → EntitlementError

abbrev pub Check : Type 0
Check = Result EntitlementError (Unit {0})

unfoldable pub subscription_of : ℕ → List Subscription → Option Subscription
subscription_of tenant [] = none
subscription_of tenant (s ∷ rows) =
    let rest = subscription_of tenant rows in if s.tenant.id == tenant then some s else rest

unfoldable pub get_subscription : ℕ → Db → Option Subscription
unfolding subscription_of
get_subscription tenant db = subscription_of tenant db.subscriptions

-- `order_by("price_monthly", "display_order")`
abbrev pub price_le : Plan → Plan → Bool
price_le p q =
    ltb p.price_monthly q.price_monthly
    || (p.price_monthly == q.price_monthly && leb p.display_order q.display_order)

unfoldable pub published_with : String → List Plan → List Plan
published_with key plans =
    keep (λ p. plan_has_feature p key) (sort_by price_le (keep (λ p. is_published p.status) plans))

-- `(priced or published)[0] if published else None`
abbrev pub first_of_either : List Plan → List Plan → Option Plan
first_of_either [] published = first published
first_of_either (p ∷ _) published = some p

unfoldable pub cheapest_plan_with : String → List Plan → Option Plan
unfolding published_with
cheapest_plan_with key plans =
    let published = published_with key plans in
    first_of_either (keep (λ p. not p.is_quote_only) published) published

unfoldable pub has_feature : ℕ → String → Db → Bool
has_feature tenant key db = elim (get_subscription tenant db) [
  | none ↦ false
  | some s ↦ contains (effective_features s) key
]

unfoldable pub ensure_feature : ℕ → String → Db → Check
ensure_feature tenant key db =
    if has_feature tenant key db
    then ok tt
    else err (feature_missing key (cheapest_plan_with key db.plans))

unfoldable pub ensure_operational : ℕ → Db → Check
ensure_operational tenant db = do
  s ← or_raise (get_subscription tenant db) no_subscription
  guard (is_operational s) (not_operational s.status)

abbrev pub watched_account_endpoint : String
watched_account_endpoint = "watched_account"

-- The rows of this month, without and with the marker of the watched accounts.
abbrev pub is_asset_scan : Env → ℕ → M.BreachIntelligenceUsage → Bool
is_asset_scan env tenant u =
    u.tenant == tenant
    && (leb env.month_start u.created_at && not (str_eq u.endpoint watched_account_endpoint))

abbrev pub is_watched_scan : Env → ℕ → M.BreachIntelligenceUsage → Bool
is_watched_scan env tenant u =
    u.tenant == tenant
    && (str_eq u.endpoint watched_account_endpoint && leb env.month_start u.created_at)

unfoldable pub monthly_scans_used : Env → ℕ → Db → ℕ
monthly_scans_used env tenant db = count_of (is_asset_scan env tenant) db.usages

unfoldable pub watched_account_scans_used : Env → ℕ → Db → ℕ
watched_account_scans_used env tenant db = count_of (is_watched_scan env tenant) db.usages

unfoldable pub monitored_used : ℕ → Db → ℕ
monitored_used tenant db = count_of (λ a. a.tenant == tenant && a.is_active) db.monitored

unfoldable pub watched_used : ℕ → Db → ℕ
watched_used tenant db = count_of (λ a. a.tenant == tenant && a.is_active) db.watched

unfoldable pub members : ℕ → Db → ℕ
members tenant db = count_of (λ m. m.tenant == tenant) db.memberships

unfoldable pub ensure_scan_quota : Env → ℕ → Db → Check
ensure_scan_quota env tenant db = do
  s ← or_raise (get_subscription tenant db) no_subscription
  let quota = monthly_scans_quota s
  guard (quota == 0 || ltb (monthly_scans_used env tenant db) quota) (quota_reached quota 0)

-- Here a quota of 0 is none at all.
unfoldable pub ensure_watched_account_quota : ℕ → Db → Check
ensure_watched_account_quota tenant db = do
  s ← or_raise (get_subscription tenant db) no_subscription
  let quota = watched_accounts_quota s
  guard (not (quota == 0)) (quota_reached 0 0)
  guard (ltb (watched_used tenant db) quota) (quota_reached quota 0)

unfoldable pub ensure_watched_account_scan_quota : Env → ℕ → Db → Check
ensure_watched_account_scan_quota env tenant db = do
  s ← or_raise (get_subscription tenant db) no_subscription
  let quota = monthly_watched_account_scans_quota s
  guard (not (quota == 0)) (quota_reached 0 0)
  guard (ltb (watched_account_scans_used env tenant db) quota) (quota_reached quota 0)

unfoldable pub ensure_monitored_asset_quota : ℕ → Db → Check
ensure_monitored_asset_quota tenant db = do
  s ← or_raise (get_subscription tenant db) no_subscription
  let quota = monitored_assets_quota s
  guard (quota == 0 || ltb (monitored_used tenant db) quota) (quota_reached quota 0)

unfoldable pub user_limit_reached : ℕ → Db → Bool
user_limit_reached tenant db = elim (get_subscription tenant db) [
  | none ↦ true
  | some s ↦ let quota = max_users_quota s in not (quota == 0) && leb quota (members tenant db)
]

unfoldable pub ensure_user_quota : ℕ → ℕ → Db → Check
ensure_user_quota tenant additional db = do
  s ← or_raise (get_subscription tenant db) no_subscription
  let quota = max_users_quota s
  let current = members tenant db
  guard (quota == 0 || leb (current + additional) quota) (quota_reached quota (quota - current))
