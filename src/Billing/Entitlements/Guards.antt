-- ===== src/Billing/Entitlements/Guards.antt =====
-- What the guards of entitlements.py on users and on features let through.
use rssi_as_a_service.Prelude.{
  ℕ, ◌+◌, ◌≤◌, ◌≡◌, ◌≢◌, ◌↔◌, false, some, ok, arith, String, contains, ◌&&◌, get_or,
}
use rssi_as_a_service.Billing.Features.{is_known}
use rssi_as_a_service.Billing.Features.Laws.{contains-sanitize}
use rssi_as_a_service.Billing.Model.{Subscription, Db, effective_features, max_users_quota}
use rssi_as_a_service.Billing.Entitlements.{
  get_subscription, has_feature, members, user_limit_reached, ensure_user_quota,
}

-- Adding one user is refused exactly where the display says that the limit is reached.
pub ensure_user_quota-user_limit_reached :
    (tenant : ℕ) (db : Db)
    → (ensure_user_quota tenant 1 db ≡ ok tt) ↔ (user_limit_reached tenant db ≡ false)
unfolding ensure_user_quota user_limit_reached
ensure_user_quota-user_limit_reached tenant db = ground arith

-- Several users at once: what is let through stays within the quota.
pub ensure_user_quota-members :
    (tenant n : ℕ) (db : Db) (s : Subscription)
    → get_subscription tenant db ≡ some s
    → ensure_user_quota tenant n db ≡ ok tt
    → max_users_quota s ≢ 0
    → members tenant db + n ≤ max_users_quota s
unfolding ensure_user_quota
ensure_user_quota-members tenant n db s e h limited = ground arith

-- A right is a key that is known and that the client's own list names, or the offer's list where the
-- client has none of its own.
pub has_feature_lem :
    (tenant : ℕ) (key : String) (db : Db) (s : Subscription)
    → get_subscription tenant db ≡ some s
    → has_feature tenant key db
      ≡ (is_known key && contains (get_or s.override_features s.plan.features) key)
unfolding has_feature effective_features
has_feature_lem tenant key db s e =
    rw (e, has_feature) (contains-sanitize (get_or s.override_features s.plan.features) key)
