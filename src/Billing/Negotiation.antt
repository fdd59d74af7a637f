-- ===== src/Billing/Negotiation.antt =====
-- backend/apps/billing/services.py: the quotas and the features that are settled for one client.
pub mod Coherence
use rssi_as_a_service.Prelude.{
  ℕ, String, Bool, true, false, ◌&&◌, ◌||◌, not, List, [], ◌∷◌, ◌++◌, Option, none, some, ltb, ◌==◌,
  str_eq, if◌then◌else◌, Result, ok, err, guard, ◌>>=◌, ◌>>◌, get_or, keep, contains,
}
use rssi_as_a_service.Billing.Features.{
  QuotaAttribute, watched_accounts_quota, monitored_assets_quota as slots_quota, Problem,
  missing_feature, missing_quota, registry, depend_de, quota_requis, sanitize, anssi_assessment,
  assistant, charter_generation, exposure_synthesis, pdf_export, realtime_monitoring,
  reuse_correlation, secret_reveal, training, training_studio, watched_accounts,
}
use rssi_as_a_service.Billing.Model as M
use rssi_as_a_service.Billing.Model.{
  Subscription, Db, Env, is_operational, monitored_assets_quota, effective_features, save,
  quotas_changed, features_composed, features_restored,
}
use rssi_as_a_service.Billing.Capacity.{ensure_monitored_slots_available, check_alert_thresholds}
use rssi_as_a_service.Billing.Lifecycle.{
  BillingError, composition_refused, capacity_guard, record_event, status_event,
}

-- The keyword arguments of `set_quota_overrides`: a field is absent, or is set to a number, or to
-- `None`, which gives the offer's quota back.
pub record QuotaOverrides : Type 0 where
  pub monitored_assets : Option (Option ℕ)
  pub monthly_scans : Option (Option ℕ)
  pub max_users : Option (Option ℕ)
  pub features : Option (Option (List String))

unfoldable pub same_number : Option ℕ → Option ℕ → Bool
same_number none none = true
same_number (some a) (some b) = a == b
same_number _ _ = false

unfoldable pub same_keys : List String → List String → Bool
same_keys [] [] = true
same_keys (x ∷ xs) (y ∷ ys) = str_eq x y && same_keys xs ys
same_keys _ _ = false

unfoldable pub same_features : Option (List String) → Option (List String) → Bool
unfolding same_keys
same_features none none = true
same_features (some a) (some b) = same_keys a b
same_features _ _ = false

-- The entry of `changed` for one field, where there is one.
unfoldable pub changed_field {ℓ} : {A : Type ℓ} → (A → A → Bool) → Option A → A → Option A
changed_field same none current = none
changed_field same (some value) current = if same value current then none else some value

unfoldable pub changed_overrides : QuotaOverrides → Subscription → QuotaOverrides
unfolding changed_field
changed_overrides o s = record {
  monitored_assets = changed_field same_number o.monitored_assets s.override_monitored_assets;
  monthly_scans = changed_field same_number o.monthly_scans s.override_monthly_scans;
  max_users = changed_field same_number o.max_users s.override_max_users;
  features = changed_field same_features o.features s.override_features;
}

abbrev is_absent {ℓ} : {A : Type ℓ} → Option A → Bool
is_absent none = true
is_absent (some _) = false

unfoldable pub is_unchanged : QuotaOverrides → Bool
is_unchanged c =
    is_absent c.monitored_assets
    && (is_absent c.monthly_scans && (is_absent c.max_users && is_absent c.features))

-- Only a rise of the slots of a subscription in service is held against the platform's capacity.
unfoldable pub rise_guard :
    Env → Subscription → Option (Option ℕ) → Db → Result BillingError (Unit {0})
unfolding is_operational
rise_guard env s none db = ok tt
rise_guard env s (some quota) db =
    let effective = get_or quota s.plan.monitored_assets in
    if is_operational s && ltb (monitored_assets_quota s) effective
    then capacity_guard (ensure_monitored_slots_available env effective (some s.id) db)
    else ok tt

abbrev pub set_overrides : QuotaOverrides → Subscription → Subscription
set_overrides c s = record s {
  override_monitored_assets = get_or c.monitored_assets s.override_monitored_assets;
  override_monthly_scans = get_or c.monthly_scans s.override_monthly_scans;
  override_max_users = get_or c.max_users s.override_max_users;
  override_features = get_or c.features s.override_features;
}

unfoldable pub set_quota_overrides :
    Env → Subscription → QuotaOverrides → Option ℕ → Db → Result BillingError (Subscription × Db)
unfolding changed_overrides is_unchanged rise_guard
set_quota_overrides env s overrides actor db =
    let changed = changed_overrides overrides s in
    if is_unchanged changed then ok (s, db) else do
      rise_guard env s changed.monitored_assets db
      let write = set_overrides changed
      let event = status_event s s.status quotas_changed actor
      ok (write s, check_alert_thresholds env (record_event event (save write s.id db)))

-- The registry in alphabetical order: `sorted(retenues)` goes through the keys so.
unfoldable pub alphabetical : List String
alphabetical =
    anssi_assessment ∷ assistant ∷ charter_generation ∷ exposure_synthesis ∷ pdf_export
    ∷ realtime_monitoring ∷ reuse_correlation ∷ secret_reveal ∷ training ∷ training_studio
    ∷ watched_accounts ∷ []

unfoldable pub missing_of : List String → String → List String → List Problem
missing_of kept key [] = []
missing_of kept key (needed ∷ rest) =
    let others = missing_of kept key rest in
    if contains kept needed then others else missing_feature key needed ∷ others

unfoldable pub dependency_problems : List String → List String → List Problem
unfolding missing_of
dependency_problems kept [] = []
dependency_problems kept (key ∷ keys) =
    missing_of kept key (depend_de key) ++ dependency_problems kept keys

-- `getattr(subscription, attribut, 0)`
unfoldable pub quota_of : Subscription → QuotaAttribute → ℕ
quota_of s watched_accounts_quota = M.watched_accounts_quota s
quota_of s slots_quota = monitored_assets_quota s

unfoldable pub quota_problems :
    Subscription → List String → List (String × QuotaAttribute) → List Problem
quota_problems s kept [] = []
quota_problems s kept ((key, quota) ∷ rest) =
    let others = quota_problems s kept rest in
    if contains kept key && (quota_of s quota == 0)
    then missing_quota key quota ∷ others
    else others

unfoldable pub incoherences_de_composition : Subscription → List String → List Problem
unfolding dependency_problems quota_problems
incoherences_de_composition s keys =
    let kept = sanitize keys in
    dependency_problems kept (keep (contains kept) alphabetical)
    ++ quota_problems s kept quota_requis

abbrev pub set_features : Option (List String) → Subscription → Subscription
set_features features s = record s { override_features = features }

-- The last part of `set_feature_overrides`, on the problems that were found.
unfoldable pub compose :
    Subscription
    → List String
    → Option ℕ
    → Db
    → List Problem
    → Result BillingError (Subscription × Db)
compose s kept actor db (p ∷ ps) = err (composition_refused (p ∷ ps))
compose s kept actor db [] =
    if same_features s.override_features (some kept)
    then ok (s, db)
    else let write = set_features (some kept) in
      let event = status_event s s.status features_composed actor in
      ok (write s, record_event event (save write s.id db))

unfoldable pub set_feature_overrides :
    Subscription → List String → Option ℕ → Db → Result BillingError (Subscription × Db)
unfolding compose
set_feature_overrides s keys actor db =
    let kept = sanitize keys in compose s kept actor db (incoherences_de_composition s kept)

unfoldable pub clear_feature_overrides : Subscription → Option ℕ → Db → Subscription × Db
clear_feature_overrides s actor db = elim s.override_features [
  | none ↦ (s, db)
  | some _ ↦
      let event = status_event s s.status features_restored actor in
      (set_features none s, record_event event (save (set_features none) s.id db))
]

abbrev pub set_notes : String → Subscription → Subscription
set_notes notes s = record s { internal_notes = notes }

unfoldable pub set_internal_notes : Subscription → String → Db → Subscription × Db
set_internal_notes s notes db = (set_notes notes s, save (set_notes notes) s.id db)

-- How a client's feature departs from the offer.
pub data Deviation : Type 0 where
  same ajoutee retiree : Deviation

pub record FeatureLine : Type 0 where
  pub key : String
  pub inherited : Bool
  pub enabled : Bool
  pub deviation : Deviation

abbrev pub deviation_of : Bool → Bool → Bool → Deviation
deviation_of false inherited enabled = same
deviation_of true true true = same
deviation_of true false false = same
deviation_of true false true = ajoutee
deviation_of true true false = retiree

unfoldable pub feature_lines : Subscription → List String → List FeatureLine
feature_lines s [] = []
feature_lines s (key ∷ keys) =
    let inherited = contains (sanitize s.plan.features) key in
    let enabled = contains (effective_features s) key in
    record {
      key = key;
      inherited = inherited;
      enabled = enabled;
      deviation = deviation_of (not (is_absent s.override_features)) inherited enabled;
    }
    ∷ feature_lines s keys

unfoldable pub feature_composition : Subscription → List FeatureLine
unfolding feature_lines
feature_composition s = feature_lines s registry
