-- ===== src/Tests/Billing.antt =====
-- The billing theorems at the catalogue of `Catalogue`.
use rssi_as_a_service.Prelude.{
  All, ◌<◌, ◌≤◌, ◌≡◌, ◌↔◌, refl, true, false, List, [], ◌∷◌, Memᴰ, none, some, ok, err, arith,
  contains, count_of, some_of, str_eq, keep, sort_by, Result, String, map,
}
use rssi_as_a_service.Billing.Features.{
  training, training_studio, sanitize, registry, depend_de, quota_requis,
}
use rssi_as_a_service.Billing.Model.{
  Plan, Subscription, Db, AlertKey, save_rows, monitored_slots, active, effective_features,
  find_subscription, plan_has_feature,
}
use rssi_as_a_service.Billing.Capacity.{
  committed_slots, monitored_slots_committed, ensure_monitored_slots_available,
  check_alert_thresholds, slots_exceeded, snapshot, is_below, check_each, alert_thresholds,
  check_threshold, is_silent, requests_since, threshold_key,
}
use rssi_as_a_service.Billing.Capacity.Sent.{Leaves}
use rssi_as_a_service.Billing.Capacity.Alerts.{IsDeduped, check_alert_thresholds-IsDeduped}
use rssi_as_a_service.Billing.Lifecycle.{BillingError, activate, expire_due_trials, is_due}
use rssi_as_a_service.Billing.Commitment.{Fits}
use rssi_as_a_service.Billing.Commitment.Reach.{
  activating, run_call, calls, edits, expires, here, next, Reach-Fits,
}
use rssi_as_a_service.Billing.Commitment.Edits.{KeepsSlots, IsRead}
use rssi_as_a_service.Billing.Commitment.Sweeps.{expire_due_trials-idempotent}
use rssi_as_a_service.Billing.Catalogue.{
  PlanChanges, QuotaField, plan_quota, override_of, new_quota, update_plan,
}
use rssi_as_a_service.Billing.Catalogue.Propagation.{
  client_quota, quota_after, NoLess, update_plan-quota, update_plan-NoLess,
}
use rssi_as_a_service.Billing.Catalogue.Engagement.{update_plan-overflows}
use rssi_as_a_service.Billing.Negotiation.{
  set_feature_overrides, incoherences_de_composition, alphabetical, same_features,
}
use rssi_as_a_service.Billing.Negotiation.Coherence.{IsCoherent, set_feature_overrides-IsCoherent}
use rssi_as_a_service.Billing.Entitlements.{
  ensure_user_quota, user_limit_reached, cheapest_plan_with,
}
use rssi_as_a_service.Billing.Entitlements.Guards.{ensure_user_quota-user_limit_reached}
use rssi_as_a_service.Billing.Entitlements.Summary.{SummaryLine, Shows, summary, summary-Shows}
use rssi_as_a_service.Billing.Entitlements.Offers.{Offers, cheapest_plan_with-IsCheapest, is_priced}
use rssi_as_a_service.Tests.Catalogue.{
  veille, pilotage, acme_trial, basil_suspended, office, settings,
}

office-Fits : Fits 5 office
unfolding monitored_slots_committed find_subscription committed_slots
office-Fits = record {
  keyed = (refl, (refl, tt));
  below = (omega arith, (omega arith, tt));
  engaged = omega arith;
}

-- Reactivating Basil takes the four slots that the pool has left.
abbrev after_activation : Result BillingError (Subscription × Db)
after_activation = activate settings basil_suspended none none "" office

-- Both slots thresholds are passed at five slots of five.
one_more_slot : ensure_monitored_slots_available settings 5 none office ≡ err (slots_exceeded 6 5 4)
unfolding ensure_monitored_slots_available committed_slots
one_more_slot = refl

-- Basil in service with Acme: five slots of five, where the alert at 80 % has left already.
abbrev slots_at_80 : AlertKey
slots_at_80 = record { resource = monitored_slots; month = 202611; threshold = 80 }

abbrev full : Db
full = record office {
  subscriptions = acme_trial ∷ record basil_suspended { status = active } ∷ [];
  alert_cache = slots_at_80 ∷ [];
  alert_mails = slots_at_80 ∷ [];
}

full-IsDeduped : IsDeduped full
unfolding some_of
full-IsDeduped = record { once = (refl, tt); remembered = (refl, tt) }

-- The pass sends the alert at 95 % and not the one at 80 %.
one_alert :
    (check_alert_thresholds settings full).alert_mails
    ≡ record slots_at_80 { threshold = 95 } ∷ slots_at_80 ∷ []
unfolding check_alert_thresholds snapshot is_below committed_slots check_each alert_thresholds
    check_threshold is_silent requests_since some_of threshold_key
one_alert = refl

check_alert_thresholds-IsDeduped_example :
    let after = check_alert_thresholds settings full in
    IsDeduped after
    × (str_eq settings.platform_alert_email "" ≡ false
        → All
            (λ u. All (Leaves settings full after u) (alert_thresholds settings))
            (snapshot settings full))
check_alert_thresholds-IsDeduped_example =
    check_alert_thresholds-IsDeduped settings full (λ k. refl) full-IsDeduped

expire_due_trials-idempotent_example :
    let (count, after) = expire_due_trials 2000 office in
    (count ≡ count_of (is_due 2000) office.subscriptions)
    × (expire_due_trials 2000 after ≡ (0, after))
expire_due_trials-idempotent_example = expire_due_trials-idempotent 2000 office office-Fits.keyed

one_trial_expires : (expire_due_trials 2000 office).0 ≡ 1
unfolding expire_due_trials keep
one_trial_expires = refl

-- What the activation leaves.
abbrev activated : Subscription × Db
activated = elim after_activation [ ok r ↦ r | err _ ↦ (acme_trial, office) ]

activation_passes : after_activation ≡ ok activated
unfolding activate ensure_monitored_slots_available committed_slots
activation_passes = refl

basil_found : find_subscription 1 office.subscriptions ≡ some basil_suspended
unfolding find_subscription
basil_found = refl

basil_activated :
    run_call settings (activating none none "") basil_suspended office
    ≡ ok (activated.0, activated.1)
unfolding run_call
basil_activated = activation_passes

abbrev unchanged : PlanChanges
unchanged = record {
  name = none;
  tagline = none;
  description = none;
  price_monthly = none;
  price_yearly = none;
  currency = none;
  is_quote_only = none;
  status = none;
  display_order = none;
  is_highlighted = none;
  monitored_assets = none;
  monthly_scans = none;
  max_users = none;
  features = none;
}

-- Fewer slots in the offer « Pilotage ».
abbrev lowered : PlanChanges
lowered = record unchanged { monitored_assets = some 2 }

lowered-KeepsSlots : KeepsSlots pilotage lowered
lowered-KeepsSlots new e = ground (arith, e)

activated-IsRead : IsRead pilotage activated.1.subscriptions
unfolding activate ensure_monitored_slots_available save_rows check_alert_thresholds snapshot
    is_below committed_slots check_each alert_thresholds check_threshold is_silent requests_since
    some_of threshold_key
activated-IsRead = ((λ e. cc e), ((λ e. refl), tt))

-- From the office: Basil is activated, its offer is lowered, then the trials that are over expire.
Reach-Fits_example : Fits 5 (expire_due_trials 2000 (update_plan pilotage lowered activated.1).1).1
Reach-Fits_example = Reach-Fits 5 office-Fits (
    next
      (next
        (next here (
          calls settings (activating none none "") basil_suspended activated.0 refl basil_found
            basil_activated))
        (edits pilotage lowered lowered-KeepsSlots activated-IsRead refl))
      (expires 2000 refl))

-- Twelve slots, and no limit on users any more.
abbrev raised : PlanChanges
raised = record unchanged { monitored_assets = some 12; max_users = some 0 }

acme_found : find_subscription 0 office.subscriptions ≡ some acme_trial
unfolding find_subscription
acme_found = refl

update_plan-quota_example :
    (s' : Subscription) × (find_subscription 0 (update_plan veille raised office).1.subscriptions
      ≡ some s')
    × ((f : QuotaField)
        → client_quota s' f
          ≡ quota_after (plan_quota veille f) (new_quota raised f) (override_of acme_trial f))
update_plan-quota_example = update_plan-quota veille raised office 0 acme_trial acme_found refl

update_plan-NoLess_example :
    (s' : Subscription) × (find_subscription 0 (update_plan veille raised office).1.subscriptions
      ≡ some s')
    × ((f : QuotaField) → NoLess (client_quota acme_trial f) (client_quota s' f))
update_plan-NoLess_example = update_plan-NoLess veille raised office 0 acme_trial acme_found refl

update_plan-overflows_example : 5 < monitored_slots_committed (update_plan veille raised office).1
update_plan-overflows_example =
    update_plan-overflows 5 veille raised office 0 12 acme_trial acme_found refl refl refl refl
      (λ e. omega arith) (omega arith) (omega arith)

abbrev studio_keys : List String
studio_keys = training ∷ "unknown" ∷ training_studio ∷ []

abbrev composed : Subscription × Db
composed = elim (set_feature_overrides acme_trial studio_keys none office) [
  | ok r ↦ r
  | err _ ↦ (acme_trial, office)
]

composition_passes : set_feature_overrides acme_trial studio_keys none office ≡ ok composed
unfolding set_feature_overrides incoherences_de_composition keep alphabetical contains sanitize
    registry depend_de quota_requis same_features
composition_passes = refl

set_feature_overrides-IsCoherent_example :
    (find_subscription 0 composed.1.subscriptions ≡ some composed.0)
    × (effective_features composed.0 ≡ sanitize studio_keys)
    × IsCoherent composed.0 (effective_features composed.0)
set_feature_overrides-IsCoherent_example =
    set_feature_overrides-IsCoherent acme_trial composed.0 studio_keys none office composed.1
      acme_found composition_passes

ensure_user_quota-user_limit_reached_example :
    (ensure_user_quota 7 1 office ≡ ok tt) ↔ (user_limit_reached 7 office ≡ false)
ensure_user_quota-user_limit_reached_example = ensure_user_quota-user_limit_reached 7 office

summary-Shows_example :
    (map (λ (l : SummaryLine). l.key) (summary settings 7 office).features ≡ registry)
    × All (Shows 7 office) (summary settings 7 office).features
summary-Shows_example = summary-Shows settings 7 office

training_from_pilotage : cheapest_plan_with training office.plans ≡ some pilotage
unfolding cheapest_plan_with plan_has_feature sort_by keep contains sanitize registry
training_from_pilotage = refl

cheapest_plan_with-IsCheapest_example :
    Memᴰ pilotage office.plans
    × Offers training pilotage
    × ((q : Plan)
        → Memᴰ q office.plans
        → Offers training q
        → is_priced q ≡ true
        → (is_priced pilotage ≡ true) × (pilotage.price_monthly ≤ q.price_monthly))
cheapest_plan_with-IsCheapest_example =
    cheapest_plan_with-IsCheapest training office.plans pilotage training_from_pilotage
