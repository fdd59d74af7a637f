-- ===== src/Billing/Catalogue.antt =====
-- backend/apps/billing/services.py: the administration of the offers.
pub mod Propagation
pub mod Engagement
use rssi_as_a_service.Prelude.{
  ℕ, suc, ◌+◌, String, Bool, true, false, ◌&&◌, ◌||◌, not, List, [], ◌∷◌, ◌++◌, Option, none, some,
  leb, ◌==◌, str_eq, if◌then◌else◌, Result, ok, err, guard, or_raise, ◌>>=◌, ◌>>◌, get_or, keep,
  count_of, some_of, length,
}
use rssi_as_a_service.Billing.Model.{Plan, PlanStatus, draft, Subscription, Status, Db, save_plan}
use rssi_as_a_service.Billing.Lifecycle.{BillingError, code_taken, plan_in_use, plan_missing}

-- The keyword arguments of `update_plan`: the fields of `EDITABLE_PLAN_FIELDS` that are given.
pub record PlanChanges : Type 0 where
  pub name : Option String
  pub tagline : Option String
  pub description : Option String
  pub price_monthly : Option ℕ
  pub price_yearly : Option ℕ
  pub currency : Option String
  pub is_quote_only : Option Bool
  pub status : Option PlanStatus
  pub display_order : Option ℕ
  pub is_highlighted : Option Bool
  pub monitored_assets : Option ℕ
  pub monthly_scans : Option ℕ
  pub max_users : Option ℕ
  pub features : Option (List String)

-- `QUOTA_FIELDS`
pub data QuotaField : Type 0 where
  monitored_assets monthly_scans max_users : QuotaField

unfoldable pub quota_fields : List QuotaField
quota_fields = monitored_assets ∷ monthly_scans ∷ max_users ∷ []

-- `changes.get(field)`, `getattr(plan, field)`, `getattr(subscription, f"override_{field}")`
abbrev pub new_quota : PlanChanges → QuotaField → Option ℕ
new_quota c monitored_assets = c.monitored_assets
new_quota c monthly_scans = c.monthly_scans
new_quota c max_users = c.max_users

abbrev pub plan_quota : Plan → QuotaField → ℕ
plan_quota p monitored_assets = p.monitored_assets
plan_quota p monthly_scans = p.monthly_scans
plan_quota p max_users = p.max_users

abbrev pub override_of : Subscription → QuotaField → Option ℕ
override_of s monitored_assets = s.override_monitored_assets
override_of s monthly_scans = s.override_monthly_scans
override_of s max_users = s.override_max_users

-- The test of the first loop of `plan_impact`: not passed over by its `continue`.
unfoldable pub is_lowered : ℕ → ℕ → Bool
is_lowered old new = not (leb old new && not (old == 0 && not (new == 0)))

abbrev pub lowered_by : Plan → QuotaField → Option ℕ → Bool
lowered_by p field none = false
lowered_by p field (some new) = is_lowered (plan_quota p field) new

unfoldable pub lowered_quotas : Plan → PlanChanges → List QuotaField
unfolding quota_fields
lowered_quotas p c = keep (λ field. lowered_by p field (new_quota c field)) quota_fields

pub record QuotaImpact : Type 0 where
  pub field : QuotaField
  pub current : ℕ
  pub after : ℕ
  pub frozen_by_override : Bool

abbrev pub quota_impact : QuotaField → Plan → ℕ → Option ℕ → QuotaImpact
quota_impact field p new none = record {
  field = field;
  current = plan_quota p field;
  after = new;
  frozen_by_override = false;
}
quota_impact field p new (some o) = record {
  field = field;
  current = o;
  after = o;
  frozen_by_override = true;
}

unfoldable pub affected_quotas :
    Plan → PlanChanges → Subscription → List QuotaField → List QuotaImpact
affected_quotas p c s [] = []
affected_quotas p c s (field ∷ fields) =
    let rest = affected_quotas p c s fields in
    elim (new_quota c field) [
      | none ↦ rest
      | some new ↦ quota_impact field p new (override_of s field) ∷ rest
    ]

pub record TenantImpact : Type 0 where
  pub tenant : ℕ
  pub tenant_name : String
  pub status : Status
  pub quotas : List QuotaImpact

pub record PlanImpact : Type 0 where
  pub subscriber_count : ℕ
  pub lowered : List QuotaField
  pub will_freeze_existing : Bool
  pub tenants : List TenantImpact

unfoldable pub subscribers : ℕ → List Subscription → List Subscription
subscribers plan rows = keep (λ s. s.plan.id == plan) rows

unfoldable pub tenant_impacts : Plan → PlanChanges → List Subscription → List TenantImpact
unfolding affected_quotas
tenant_impacts p c [] = []
tenant_impacts p c (s ∷ rows) =
    record {
      tenant = s.tenant.id;
      tenant_name = s.tenant.name;
      status = s.status;
      quotas = affected_quotas p c s quota_fields;
    }
    ∷ tenant_impacts p c rows

abbrev pub is_empty {ℓ} : {A : Type ℓ} → List A → Bool
is_empty [] = true
is_empty (_ ∷ _) = false

unfoldable pub plan_impact : Plan → PlanChanges → Db → PlanImpact
unfolding tenant_impacts subscribers
plan_impact p c db =
    let rows = subscribers p.id db.subscriptions in
    let lowered = lowered_quotas p c in
    record {
      subscriber_count = length rows;
      lowered = lowered;
      will_freeze_existing = not (is_empty lowered) && not (is_empty rows);
      tenants = tenant_impacts p c rows;
    }

-- `setattr(subscription, override, getattr(plan, field))`, where the override is `None`.
unfoldable pub freeze_field : Plan → QuotaField → Subscription → Subscription
freeze_field p monitored_assets s = record s {
  override_monitored_assets = some (get_or s.override_monitored_assets p.monitored_assets);
}
freeze_field p monthly_scans s = record s {
  override_monthly_scans = some (get_or s.override_monthly_scans p.monthly_scans);
}
freeze_field p max_users s = record s {
  override_max_users = some (get_or s.override_max_users p.max_users);
}

unfoldable pub freeze_fields : Plan → List QuotaField → Subscription → Subscription
unfolding freeze_field
freeze_fields p [] s = s
freeze_fields p (field ∷ fields) s = freeze_fields p fields (freeze_field p field s)

-- The subscriptions after the loop of `update_plan`, and the clients that it froze.
unfoldable pub freeze_rows : Plan → List QuotaField → List Subscription → List Subscription
unfolding freeze_fields
freeze_rows p lowered [] = []
freeze_rows p lowered (s ∷ rows) =
    (if s.plan.id == p.id then freeze_fields p lowered s else s) ∷ freeze_rows p lowered rows

abbrev pub is_free : Subscription → QuotaField → Bool
is_free s field = elim (override_of s field) [ none ↦ true | some _ ↦ false ]

unfoldable pub frozen_names : Plan → List QuotaField → List Subscription → List String
frozen_names p lowered [] = []
frozen_names p lowered (s ∷ rows) =
    let rest = frozen_names p lowered rows in
    if s.plan.id == p.id && some_of (is_free s) lowered then s.tenant.name ∷ rest else rest

unfoldable pub apply_changes : PlanChanges → Plan → Plan
apply_changes c p = record p {
  name = get_or c.name p.name;
  tagline = get_or c.tagline p.tagline;
  description = get_or c.description p.description;
  price_monthly = get_or c.price_monthly p.price_monthly;
  price_yearly = get_or c.price_yearly p.price_yearly;
  currency = get_or c.currency p.currency;
  is_quote_only = get_or c.is_quote_only p.is_quote_only;
  status = get_or c.status p.status;
  display_order = get_or c.display_order p.display_order;
  is_highlighted = get_or c.is_highlighted p.is_highlighted;
  monitored_assets = get_or c.monitored_assets p.monitored_assets;
  monthly_scans = get_or c.monthly_scans p.monthly_scans;
  max_users = get_or c.max_users p.max_users;
  features = get_or c.features p.features;
}

-- What `update_plan` returns; its `diff_fields` compares `before` with `after`.
pub record PlanUpdate : Type 0 where
  pub before : Plan
  pub after : Plan
  pub frozen : List String

unfoldable pub update_plan : Plan → PlanChanges → Db → PlanUpdate × Db
unfolding plan_impact freeze_rows frozen_names apply_changes
update_plan p c db =
    let lowered = lowered_quotas p c in
    let freezes = (plan_impact p c db).will_freeze_existing in
    let after = apply_changes c p in
    let rows = if freezes then freeze_rows p lowered db.subscriptions else db.subscriptions in
    (
      record {
        before = p;
        after = after;
        frozen = if freezes then frozen_names p lowered db.subscriptions else [];
      },
      save_plan after (record db { subscriptions = rows }),
    )

unfoldable pub find_plan : ℕ → List Plan → Option Plan
find_plan i [] = none
find_plan i (p ∷ plans) = let rest = find_plan i plans in if p.id == i then some p else rest

unfoldable pub duplicate_plan : Plan → String → String → Db → Result BillingError (Plan × Db)
unfolding find_plan
duplicate_plan p code name db = do
  guard (not (some_of (λ q. str_eq q.code code) db.plans)) (code_taken code)
  row ← or_raise (find_plan p.id db.plans) plan_missing
  let clone = record row {
    id = db.next_plan;
    code = code;
    name = name;
    status = draft;
    is_highlighted = false;
    display_order = p.display_order + 1;
  }
  ok (clone, record db { plans = clone ∷ db.plans; next_plan = suc db.next_plan })

unfoldable pub plan_subscriber_count : Plan → Db → ℕ
plan_subscriber_count p db = count_of (λ s. s.plan.id == p.id) db.subscriptions

unfoldable pub can_delete_plan : Plan → Db → Bool
unfolding plan_subscriber_count
can_delete_plan p db = plan_subscriber_count p db == 0

unfoldable pub delete_plan : Plan → Db → Result BillingError (String × Db)
unfolding can_delete_plan
delete_plan p db = do
  guard (can_delete_plan p db) (plan_in_use (plan_subscriber_count p db))
  ok (p.name, record db { plans = keep (λ q. not (q.id == p.id)) db.plans })
