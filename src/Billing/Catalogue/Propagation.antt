-- ===== src/Billing/Catalogue/Propagation.antt =====
-- What `update_plan` does to the clients of an offer, field by field (ADR-021).
use mathlib.Core.Path.{subst₂}
use rssi_as_a_service.Prelude.{
  ℕ, ◌<◌, ◌≡◌, ◌≢◌, ◌⊎◌, inl, refl, sym, ap, ◌∙◌, Bool, true, false, ◌&&◌, not, List, [], ◌∷◌,
  Option, none, some, get_or, keep, some_of, if◌then◌else◌, arith,
}
use rssi_as_a_service.Billing.Model.{Plan, Subscription, Db, find_subscription, reread_plan}
use rssi_as_a_service.Billing.Catalogue.{
  PlanChanges, QuotaField, monitored_assets, monthly_scans, max_users, new_quota, plan_quota,
  override_of, is_lowered, lowered_by, lowered_quotas, freeze_field, freeze_fields, freeze_rows,
  apply_changes, subscribers, is_empty, update_plan,
}

-- The quota that a client has.
abbrev pub client_quota : Subscription → QuotaField → ℕ
client_quota s field = get_or (override_of s field) (plan_quota s.plan field)

abbrev same_field : QuotaField → QuotaField → Bool
same_field monitored_assets monitored_assets = true
same_field monthly_scans monthly_scans = true
same_field max_users max_users = true
same_field _ _ = false

override-freeze_field :
    (p : Plan) (g f : QuotaField) (s : Subscription)
    → override_of (freeze_field p g s) f ≡ (
        if same_field f g
        then some (get_or (override_of s f) (plan_quota p f))
        else override_of s f)
unfolding freeze_field
override-freeze_field p monitored_assets monitored_assets s = refl
override-freeze_field p monitored_assets monthly_scans s = refl
override-freeze_field p monitored_assets max_users s = refl
override-freeze_field p monthly_scans monitored_assets s = refl
override-freeze_field p monthly_scans monthly_scans s = refl
override-freeze_field p monthly_scans max_users s = refl
override-freeze_field p max_users monitored_assets s = refl
override-freeze_field p max_users monthly_scans s = refl
override-freeze_field p max_users max_users s = refl

override-freeze_fields :
    (p : Plan) (l : List QuotaField) (f : QuotaField) (s : Subscription)
    → override_of (freeze_fields p l s) f ≡ (
        if some_of (same_field f) l
        then some (get_or (override_of s f) (plan_quota p f))
        else override_of s f)
unfolding freeze_fields some_of
override-freeze_fields p [] f s = refl
override-freeze_fields p (g ∷ l) f s =
    ground (arith, override-freeze_fields p l f (freeze_field p g s), override-freeze_field p g f s)

lowered-some_of :
    (p : Plan) (c : PlanChanges) (f : QuotaField)
    → some_of (same_field f) (lowered_quotas p c) ≡ lowered_by p f (new_quota c f)
unfolding lowered_quotas keep some_of
lowered-some_of p c monitored_assets = ground arith
lowered-some_of p c monthly_scans = ground arith
lowered-some_of p c max_users = ground arith

plan-freeze_field :
    (p : Plan) (g : QuotaField) (s : Subscription)
    → ((freeze_field p g s).plan ≡ s.plan) × ((freeze_field p g s).id ≡ s.id)
unfolding freeze_field
plan-freeze_field p monitored_assets s = (refl, refl)
plan-freeze_field p monthly_scans s = (refl, refl)
plan-freeze_field p max_users s = (refl, refl)

pub plan-freeze_fields :
    (p : Plan) (l : List QuotaField) (s : Subscription)
    → ((freeze_fields p l s).plan ≡ s.plan) × ((freeze_fields p l s).id ≡ s.id)
unfolding freeze_fields
plan-freeze_fields p [] s = (refl, refl)
plan-freeze_fields p (g ∷ l) s =
    let (a, b) = plan-freeze_fields p l (freeze_field p g s) in
    let (c, d) = plan-freeze_field p g s in (a ∙ c, b ∙ d)

find-freeze_rows :
    (p : Plan) (l : List QuotaField) (i : ℕ) (s : Subscription) (rows : List Subscription)
    → find_subscription i rows ≡ some s
    → s.plan.id ≡ p.id
    → find_subscription i (freeze_rows p l rows) ≡ some (freeze_fields p l s)
unfolding find_subscription freeze_rows
find-freeze_rows p l i s [] h e = cc
find-freeze_rows p l i s (r ∷ rows) h e =
    ground (arith, find-freeze_rows p l i s rows, (plan-freeze_fields p l r).1)

find-reread_plan :
    (a : Plan) (i : ℕ) (s : Subscription) (rows : List Subscription)
    → find_subscription i rows ≡ some s
    → s.plan.id ≡ a.id
    → find_subscription i (reread_plan a rows) ≡ some (record s { plan = a })
unfolding find_subscription reread_plan
find-reread_plan a i s [] h e = cc
find-reread_plan a i s (r ∷ rows) h e = ground (arith, find-reread_plan a i s rows)

subscribers-nonempty :
    (p i : ℕ) (s : Subscription) (rows : List Subscription)
    → find_subscription i rows ≡ some s
    → s.plan.id ≡ p
    → is_empty (subscribers p rows) ≡ false
unfolding find_subscription subscribers keep
subscribers-nonempty p i s [] h e = cc
subscribers-nonempty p i s (r ∷ rows) h e = ground (arith, subscribers-nonempty p i s rows)

-- A client of the offer, as `update_plan` leaves it.
abbrev pub row_after : Plan → PlanChanges → Subscription → Subscription
row_after p c s = record (freeze_fields p (lowered_quotas p c) s) { plan = apply_changes c p }

pub id-apply_changes : (c : PlanChanges) (p : Plan) → (apply_changes c p).id ≡ p.id
unfolding apply_changes
id-apply_changes c p = refl

find-frozen :
    (p : Plan) (l : List QuotaField) (i : ℕ) (s : Subscription) (rows : List Subscription)
    → find_subscription i rows ≡ some s
    → s.plan.id ≡ p.id
    → find_subscription i (
        if not (is_empty l) && not (is_empty (subscribers p.id rows))
        then freeze_rows p l rows
        else rows)
      ≡ some (freeze_fields p l s)
find-frozen p [] i s rows h e = unfold freeze_fields in h
find-frozen p (f ∷ l) i s rows h e =
    rw (subscribers-nonempty p.id i s rows h e) (find-freeze_rows p (f ∷ l) i s rows h e)

pub update_plan-row :
    (p : Plan) (c : PlanChanges) (db : Db) (i : ℕ) (s : Subscription)
    → find_subscription i db.subscriptions ≡ some s
    → s.plan.id ≡ p.id
    → find_subscription i (update_plan p c db).1.subscriptions ≡ some (row_after p c s)
unfolding update_plan
update_plan-row p c db i s h e =
    let l = lowered_quotas p c in
    find-reread_plan (apply_changes c p) i (freeze_fields p l s) _
      (find-frozen p l i s db.subscriptions h e)
      (ap (λ (q : Plan). q.id) (plan-freeze_fields p l s).0 ∙ e ∙ sym (id-apply_changes c p))

-- The quota of a client whose offer changes: its own, else the old one where the change counts as a
-- reduction, else the new one.
abbrev pub quota_after : ℕ → Option ℕ → Option ℕ → ℕ
quota_after old new (some own) = own
quota_after old none none = old
quota_after old (some new) none = if is_lowered old new then old else new

plan-apply_changes :
    (c : PlanChanges) (p : Plan) (f : QuotaField)
    → plan_quota (apply_changes c p) f ≡ get_or (new_quota c f) (plan_quota p f)
unfolding apply_changes
plan-apply_changes c p monitored_assets = refl
plan-apply_changes c p monthly_scans = refl
plan-apply_changes c p max_users = refl

override-plan :
    (s : Subscription) (q : Plan) (f : QuotaField)
    → override_of (record s { plan = q }) f ≡ override_of s f
override-plan s q monitored_assets = refl
override-plan s q monthly_scans = refl
override-plan s q max_users = refl

pub quota-row_after :
    (p : Plan) (c : PlanChanges) (s : Subscription) (f : QuotaField)
    → client_quota (row_after p c s) f
      ≡ quota_after (plan_quota p f) (new_quota c f) (override_of s f)
quota-row_after p c s f =
    rw (override-plan (freeze_fields p (lowered_quotas p c) s) (apply_changes c p) f) (
      ground (
        arith,
        override-freeze_fields p (lowered_quotas p c) f s,
        lowered-some_of p c f,
        plan-apply_changes c p f,
      ))

-- After `update_plan`, a client of the offer has in each quota field: its negotiated quota, if there
-- is one; else the offer's new quota, unless the change counts as a reduction, and then the old one.
pub update_plan-quota :
    (p : Plan) (c : PlanChanges) (db : Db) (i : ℕ) (s : Subscription)
    → find_subscription i db.subscriptions ≡ some s
    → s.plan ≡ p
    → (s' : Subscription) × (find_subscription i (update_plan p c db).1.subscriptions ≡ some s')
      × ((f : QuotaField)
          → client_quota s' f ≡ quota_after (plan_quota p f) (new_quota c f) (override_of s f))
update_plan-quota p c db i s h e = (
  row_after p c s,
  update_plan-row p c db i s h (ap (λ (q : Plan). q.id) e),
  λ f. quota-row_after p c s f,
)

-- Where 0 means unlimited, the second quota takes nothing away from the first.
abbrev pub NoLess : ℕ → ℕ → Type 0
NoLess before after = (after ≡ before) ⊎ ((before ≢ 0) × (before < after))

quota_after-NoLess :
    (old : ℕ) (new own : Option ℕ) → NoLess (get_or own old) (quota_after old new own)
unfolding is_lowered
quota_after-NoLess old new (some o) = inl refl
quota_after-NoLess old none none = inl refl
quota_after-NoLess old (some n) none = ground arith

-- A change of an offer takes nothing away from its clients: each quota of each client stays as it
-- was, or rises from a limit.
pub update_plan-NoLess :
    (p : Plan) (c : PlanChanges) (db : Db) (i : ℕ) (s : Subscription)
    → find_subscription i db.subscriptions ≡ some s
    → s.plan ≡ p
    → (s' : Subscription) × (find_subscription i (update_plan p c db).1.subscriptions ≡ some s')
      × ((f : QuotaField) → NoLess (client_quota s f) (client_quota s' f))
update_plan-NoLess p c db i s h e = (
  row_after p c s,
  update_plan-row p c db i s h (ap (λ (q : Plan). q.id) e),
  λ f.
      subst₂ NoLess (sym (ap (λ q. get_or (override_of s f) (plan_quota q f)) e))
        (sym (quota-row_after p c s f))
        (quota_after-NoLess (plan_quota p f) (new_quota c f) (override_of s f)),
)
