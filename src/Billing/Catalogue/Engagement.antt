-- ===== src/Billing/Catalogue/Engagement.antt =====
-- What `update_plan` does to the sum of the slots that the platform engages.
use rssi_as_a_service.Prelude.{
  ℕ, ◌<◌, ◌≤◌, ◌≡◌, ◌≢◌, refl, ap, ◌∙◌, true, List, [], ◌∷◌, none, some, arith,
}
use rssi_as_a_service.Billing.Model.{
  Plan, Subscription, Db, find_subscription, is_operational, monitored_assets_quota, in_service,
}
use rssi_as_a_service.Billing.Capacity.{committed_slots, monitored_slots_committed}
use rssi_as_a_service.Billing.Catalogue.{
  PlanChanges, QuotaField, monitored_assets, monthly_scans, max_users, is_lowered, lowered_quotas,
  freeze_field, freeze_fields, update_plan,
}
use rssi_as_a_service.Billing.Catalogue.Propagation.{row_after, update_plan-row, quota-row_after}

status-freeze_field :
    (p : Plan) (g : QuotaField) (s : Subscription) → (freeze_field p g s).status ≡ s.status
unfolding freeze_field
status-freeze_field p monitored_assets s = refl
status-freeze_field p monthly_scans s = refl
status-freeze_field p max_users s = refl

pub status-freeze_fields :
    (p : Plan) (l : List QuotaField) (s : Subscription) → (freeze_fields p l s).status ≡ s.status
unfolding freeze_fields
status-freeze_fields p [] s = refl
status-freeze_fields p (g ∷ l) s =
    status-freeze_fields p l (freeze_field p g s) ∙ status-freeze_field p g s

-- A row in service engages its quota.
committed-ge :
    (i : ℕ) (s : Subscription) (rows : List Subscription)
    → find_subscription i rows ≡ some s
    → in_service s.status ≡ true
    → monitored_assets_quota s ≤ committed_slots none rows
unfolding find_subscription committed_slots is_operational
committed-ge i s [] h o = cc
committed-ge i s (r ∷ rows) h o = ground (arith, committed-ge i s rows)

-- `update_plan` asks no capacity guard: raising an offer's slots above the pool engages more than the
-- pool as soon as one client in service follows the offer.
pub update_plan-overflows :
    (pool : ℕ) (p : Plan) (c : PlanChanges) (db : Db) (i new : ℕ) (s : Subscription)
    → find_subscription i db.subscriptions ≡ some s
    → s.plan ≡ p
    → in_service s.status ≡ true
    → s.override_monitored_assets ≡ none
    → c.monitored_assets ≡ some new
    → p.monitored_assets ≢ 0
    → p.monitored_assets ≤ new
    → pool < new
    → pool < monitored_slots_committed (update_plan p c db).1
unfolding monitored_slots_committed is_lowered monitored_assets_quota
update_plan-overflows pool p c db i new s h e o free raised old more over =
    let after = row_after p c s in
    let engaged =
      committed-ge i after (update_plan p c db).1.subscriptions
        (update_plan-row p c db i s h (ap (λ (q : Plan). q.id) e))
        (ap in_service (status-freeze_fields p (lowered_quotas p c) s) ∙ o) in
    let quota = quota-row_after p c s monitored_assets in ground (arith, engaged, quota)
