-- ===== src/Billing/Entitlements/Summary.antt =====
-- backend/apps/billing/entitlements.py, `summary`: what the interface shows of a client's rights. The
-- labels and the teasers are texts for display.
use rssi_as_a_service.Prelude.{
  ℕ, String, ◌≡◌, refl, Bool, true, false, ◌&&◌, not, List, [], ◌∷◌, Option, none, some,
  if◌then◌else◌, contains, All, Bool-cases, Option-cases, inl, inr, arith, ok, err, ◌↔◌, ap, map,
}
use rssi_as_a_service.Billing.Features.{registry, sanitize}
use rssi_as_a_service.Billing.Model.{
  Plan, Subscription, Status, Db, Env, is_operational, effective_features, monitored_assets_quota,
  monthly_scans_quota, watched_accounts_quota, monthly_watched_account_scans_quota,
}
use rssi_as_a_service.Billing.Entitlements.{
  get_subscription, has_feature, ensure_feature, feature_missing, cheapest_plan_with,
  monitored_used, watched_used, monthly_scans_used, watched_account_scans_used,
}

pub record SummaryLine : Type 0 where
  pub key : String
  pub included : Bool
  pub from_override : Bool
  pub required_plan : String

pub record QuotaLine : Type 0 where
  pub quota : ℕ
  pub used : ℕ

pub record SubscriptionPart : Type 0 where
  pub plan_name : String
  pub plan_code : String
  pub status : Status
  pub operational : Bool
  pub monitored_assets : QuotaLine
  pub monthly_scans : QuotaLine
  pub watched_accounts : QuotaLine
  pub watched_account_scans : QuotaLine

pub record Summary : Type 0 where
  pub subscription : Option SubscriptionPart
  pub features : List SummaryLine

unfoldable pub included_keys : Option Subscription → List String
included_keys none = []
included_keys (some s) = effective_features s

-- `du_plan`, and whether the features were composed for this client.
unfoldable pub du_plan : Option Subscription → List String
du_plan none = []
du_plan (some s) = sanitize s.plan.features

unfoldable pub is_composed : Option Subscription → Bool
is_composed none = false
is_composed (some s) = elim s.override_features [ none ↦ false | some _ ↦ true ]

unfoldable pub plan_name_of : Option Plan → String
plan_name_of none = ""
plan_name_of (some p) = p.name

unfoldable pub feature_line : Option Subscription → List Plan → String → SummaryLine
feature_line subscription plans key =
    if contains (included_keys subscription) key
    then record {
      key = key;
      included = true;
      from_override = is_composed subscription && not (contains (du_plan subscription) key);
      required_plan = "";
    }
    else record {
      key = key;
      included = false;
      from_override = is_composed subscription && contains (du_plan subscription) key;
      required_plan = plan_name_of (cheapest_plan_with key plans);
    }

unfoldable pub feature_list : Option Subscription → List Plan → List String → List SummaryLine
feature_list subscription plans [] = []
feature_list subscription plans (key ∷ keys) =
    feature_line subscription plans key ∷ feature_list subscription plans keys

unfoldable pub subscription_part : Env → ℕ → Db → Subscription → SubscriptionPart
subscription_part env tenant db s = record {
  plan_name = s.plan.name;
  plan_code = s.plan.code;
  status = s.status;
  operational = is_operational s;
  monitored_assets = record { quota = monitored_assets_quota s; used = monitored_used tenant db };
  monthly_scans = record { quota = monthly_scans_quota s; used = monthly_scans_used env tenant db };
  watched_accounts = record { quota = watched_accounts_quota s; used = watched_used tenant db };
  watched_account_scans = record {
    quota = monthly_watched_account_scans_quota s;
    used = watched_account_scans_used env tenant db;
  };
}

unfoldable pub summary : Env → ℕ → Db → Summary
summary env tenant db =
    let subscription = get_subscription tenant db in
    record {
      subscription = elim subscription [
        | none ↦ none
        | some s ↦ some (subscription_part env tenant db s)
      ];
      features = feature_list subscription db.plans registry;
    }

abbrev same_bool : Bool → Bool → Bool
same_bool true b = b
same_bool false b = not b

-- What the interface needs of a line: the right is there exactly where `ensure_feature` lets through; it
-- is marked as negotiated exactly where it differs from what the offer alone gives; where
-- `ensure_feature` refuses, its error bears the offer that the line names.
abbrev pub Shows : ℕ → Db → SummaryLine → Type 0
Shows tenant db line =
    ((line.included ≡ true) ↔ (ensure_feature tenant line.key db ≡ ok tt))
    × (line.from_override
        ≡ not (same_bool line.included (contains (du_plan (get_subscription tenant db)) line.key)))
    × ((plan : Option Plan)
        → ensure_feature tenant line.key db ≡ err (feature_missing line.key plan)
        → line.required_plan ≡ plan_name_of plan)

included-has_feature :
    (tenant : ℕ) (db : Db) (key : String)
    → contains (included_keys (get_subscription tenant db)) key ≡ has_feature tenant key db
unfolding has_feature
included-has_feature tenant db key = elim (Option-cases (get_subscription tenant db)) [
  | inl missing ↦ rw (missing, has_feature) (unfold included_keys contains in refl)
  | inr (s, found) ↦ rw (found, has_feature) (unfold included_keys in refl)
]

-- Without a composition of its own, a client has what the offer gives.
uncomposed :
    (subscription : Option Subscription)
    → is_composed subscription ≡ false
    → included_keys subscription ≡ du_plan subscription
unfolding is_composed included_keys du_plan effective_features
uncomposed none h = refl
uncomposed (some s) h = ground arith

line-Shows :
    (tenant : ℕ) (db : Db) (key : String)
    → Shows tenant db (feature_line (get_subscription tenant db) db.plans key)
unfolding feature_line ensure_feature
line-Shows tenant db key =
    let subscription = get_subscription tenant db in
    let same = included-has_feature tenant db key in
    let plain : is_composed subscription ≡ false
        → contains (included_keys subscription) key ≡ contains (du_plan subscription) key =
      λ h. ap (λ keys. contains keys key) (uncomposed subscription h) in
    elim (Bool-cases (contains (included_keys subscription) key)) [
      | inl there ↦
          rw there (ground (arith, same, there), ground (arith, plain, there), ground (arith, same))
      | inr gone ↦
          rw gone (ground (arith, same, gone), ground (arith, plain, gone), ground (arith, same))
    ]

lines-Shows :
    (tenant : ℕ) (db : Db) (keys : List String)
    → All (Shows tenant db) (feature_list (get_subscription tenant db) db.plans keys)
unfolding feature_list
lines-Shows tenant db [] = tt
lines-Shows tenant db (key ∷ keys) = (line-Shows tenant db key, lines-Shows tenant db keys)

keys-feature_list :
    (subscription : Option Subscription) (plans : List Plan) (keys : List String)
    → map (λ (l : SummaryLine). l.key) (feature_list subscription plans keys) ≡ keys
unfolding feature_list feature_line
keys-feature_list subscription plans [] = refl
keys-feature_list subscription plans (key ∷ keys) =
    ground (arith, keys-feature_list subscription plans keys)

-- The summary has one line for each key of the registry, in the registry's order, the missing rights
-- included. A line shows the right as there exactly where `ensure_feature` lets through, marks it as
-- negotiated exactly where it differs from what the offer alone gives, and names the offer that the
-- error of `ensure_feature` bears where that refuses.
pub summary-Shows :
    (env : Env) (tenant : ℕ) (db : Db)
    → (map (λ (l : SummaryLine). l.key) (summary env tenant db).features ≡ registry)
      × All (Shows tenant db) (summary env tenant db).features
unfolding summary
summary-Shows env tenant db = (
  keys-feature_list (get_subscription tenant db) db.plans registry,
  lines-Shows tenant db registry,
)
