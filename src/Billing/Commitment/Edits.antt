-- ===== src/Billing/Commitment/Edits.antt =====
-- A change of an offer that does not raise its slots, and what the other operations on offers and
-- payments leave alone: the slots engaged still fit in the pool.
use rssi_as_a_service.Prelude.{
  ℕ, ◌+◌, ◌≤◌, ◌≡◌, ◌⊎◌, refl, sym, ap, keep, true, List, [], ◌∷◌, none, some, ◌==◌, All, arith,
  Bool-cases, inl, inr, if◌then◌else◌, ◌&&◌, not, ok, String, Option, get_or,
}
use rssi_as_a_service.Billing.Model.{
  Plan, Subscription, Db, find_subscription, is_operational, monitored_assets_quota, in_service,
  reread_plan,
}
use rssi_as_a_service.Billing.Lifecycle.{record_payment}
use rssi_as_a_service.Billing.Capacity.{committed_slots, monitored_slots_committed}
use rssi_as_a_service.Billing.Rows.{IsKeyed, AreBelow, share}
use rssi_as_a_service.Billing.Catalogue.{
  PlanChanges, QuotaField, monitored_assets, is_lowered, lowered_quotas, freeze_fields, freeze_rows,
  apply_changes, subscribers, is_empty, update_plan, duplicate_plan, delete_plan,
}
use rssi_as_a_service.Billing.Catalogue.Propagation.{
  row_after, quota-row_after, quota_after, client_quota, plan-freeze_fields,
}
use rssi_as_a_service.Billing.Catalogue.Engagement.{status-freeze_fields}
use rssi_as_a_service.Billing.Commitment.{Fits, SameRows-Fits}

-- A change that leaves the slots of the offer, or lowers them, or is one of an offer without a limit.
abbrev pub KeepsSlots : Plan → PlanChanges → Type 0
KeepsSlots p c =
    (new : ℕ)
    → c.monitored_assets ≡ some new
    → (p.monitored_assets ≡ 0) ⊎ (new ≤ p.monitored_assets)

-- The offer is the one that its clients' rows name: it was read from the present table.
abbrev pub IsRead : Plan → List Subscription → Type 0
IsRead p rows = All (λ (s : Subscription). (s.plan.id == p.id) ≡ true → s.plan ≡ p) rows

quota_after-le :
    (p : Plan) (c : PlanChanges) (own new : Option ℕ)
    → KeepsSlots p c
    → c.monitored_assets ≡ new
    → quota_after p.monitored_assets new own ≤ get_or own p.monitored_assets
unfolding is_lowered
quota_after-le p c (some o) new keeps e = omega arith
quota_after-le p c none none keeps e = omega arith
quota_after-le p c none (some new) keeps e = ground (arith, keeps new e)

share-row_after :
    (p : Plan) (c : PlanChanges) (s : Subscription)
    → KeepsSlots p c
    → s.plan ≡ p
    → share (row_after p c s) ≤ share s
unfolding share is_operational monitored_assets_quota
share-row_after p c s keeps e =
    let quota = quota-row_after p c s monitored_assets in
    let least = quota_after-le p c s.override_monitored_assets c.monitored_assets keeps refl in
    let slots : s.plan.monitored_assets ≡ p.monitored_assets =
      ap (λ (q : Plan). q.monitored_assets) e in
    let fewer : client_quota (row_after p c s) monitored_assets
        ≤ get_or s.override_monitored_assets s.plan.monitored_assets =
      rw (quota, slots) least in
    rw (status-freeze_fields p (lowered_quotas p c) s) (elim (Bool-cases (in_service s.status)) [
      | inl busy ↦ rw busy fewer
      | inr idle ↦ rw idle (omega arith)
    ])

committed-cons :
    (s : Subscription) (rows : List Subscription)
    → committed_slots none (s ∷ rows) ≡ share s + committed_slots none rows
unfolding committed_slots share
committed-cons s rows = ground arith

-- The rows of the clients as `update_plan` leaves them.
abbrev edited : Plan → PlanChanges → List Subscription → List Subscription
edited p c rows = reread_plan (apply_changes c p) (freeze_rows p (lowered_quotas p c) rows)

freeze_rows-nothing : (p : Plan) (rows : List Subscription) → freeze_rows p [] rows ≡ rows
unfolding freeze_rows freeze_fields
freeze_rows-nothing p [] = refl
freeze_rows-nothing p (r ∷ rows) = ground (arith, freeze_rows-nothing p rows)

freeze_rows-nobody :
    (p : Plan) (l : List QuotaField) (rows : List Subscription)
    → is_empty (subscribers p.id rows) ≡ true
    → freeze_rows p l rows ≡ rows
unfolding freeze_rows subscribers keep
freeze_rows-nobody p l [] h = refl
freeze_rows-nobody p l (r ∷ rows) h = ground (arith, freeze_rows-nobody p l rows)

frozen :
    (p : Plan) (l : List QuotaField) (rows : List Subscription)
    → (if not (is_empty l) && not (is_empty (subscribers p.id rows))
        then freeze_rows p l rows
        else rows)
      ≡ freeze_rows p l rows
frozen p [] rows = sym (freeze_rows-nothing p rows)
frozen p (f ∷ l) rows = elim (Bool-cases (is_empty (subscribers p.id rows))) [
  | inl nobody ↦ rw nobody (sym (freeze_rows-nobody p (f ∷ l) rows nobody))
  | inr somebody ↦ rw somebody refl
]

update_plan-edited :
    (p : Plan) (c : PlanChanges) (db : Db)
    → (update_plan p c db).1.subscriptions ≡ edited p c db.subscriptions
unfolding update_plan
update_plan-edited p c db =
    ap (reread_plan (apply_changes c p)) (frozen p (lowered_quotas p c) db.subscriptions)

edited-nil : (p : Plan) (c : PlanChanges) → edited p c [] ≡ []
unfolding reread_plan freeze_rows
edited-nil p c = refl

edited-cons :
    (p : Plan) (c : PlanChanges) (r : Subscription) (rows : List Subscription)
    → edited p c (r ∷ rows) ≡ (if r.plan.id == p.id then row_after p c r else r) ∷ edited p c rows
unfolding reread_plan freeze_rows apply_changes
edited-cons p c r rows =
    let same = ap (λ (q : Plan). q.id) (plan-freeze_fields p (lowered_quotas p c) r).0 in
    elim (Bool-cases (r.plan.id == p.id)) [
      | inl mine ↦ rw (mine, same, mine) refl
      | inr other ↦ rw (other, other) refl
    ]

committed-edited :
    (p : Plan) (c : PlanChanges) (rows : List Subscription)
    → KeepsSlots p c
    → IsRead p rows
    → committed_slots none (edited p c rows) ≤ committed_slots none rows
committed-edited p c [] keeps read = rw (edited-nil p c) (omega arith)
committed-edited p c (r ∷ rows) keeps read =
    let rest = committed-edited p c rows keeps read.1 in
    let row = share-row_after p c r keeps in
    let cons = committed-cons r rows in
    rw
      (
        edited-cons p c r rows,
        committed-cons (if r.plan.id == p.id then row_after p c r else r) (edited p c rows),
      )
      (elim (Bool-cases (r.plan.id == p.id)) [
        | inl mine ↦ let light = row (read.0 mine) in rw mine (omega (arith, light, rest, cons))
        | inr other ↦ rw other (omega (arith, rest, cons))
      ])

find-edited-none :
    (p : Plan) (c : PlanChanges) (i : ℕ) (rows : List Subscription)
    → find_subscription i rows ≡ none
    → find_subscription i (edited p c rows) ≡ none
unfolding find_subscription
find-edited-none p c i [] h = rw (edited-nil p c) h
find-edited-none p c i (r ∷ rows) h =
    let same = (plan-freeze_fields p (lowered_quotas p c) r).1 in
    rw (edited-cons p c r rows) (elim (Bool-cases (r.plan.id == p.id)) [
      | inl mine ↦ rw (mine, same) (ground (arith, find-edited-none p c i rows))
      | inr other ↦ rw other (ground (arith, find-edited-none p c i rows))
    ])

edited-IsKeyed :
    (p : Plan) (c : PlanChanges) (rows : List Subscription)
    → IsKeyed rows
    → IsKeyed (edited p c rows)
edited-IsKeyed p c [] k = rw (edited-nil p c) tt
edited-IsKeyed p c (r ∷ rows) k =
    let same = (plan-freeze_fields p (lowered_quotas p c) r).1 in
    let absent = find-edited-none p c r.id rows k.0 in
    let rest = edited-IsKeyed p c rows k.1 in
    rw (edited-cons p c r rows) (elim (Bool-cases (r.plan.id == p.id)) [
      | inl mine ↦ rw (mine, same) (absent, rest)
      | inr other ↦ rw other (absent, rest)
    ])

edited-AreBelow :
    (p : Plan) (c : PlanChanges) (n : ℕ) (rows : List Subscription)
    → AreBelow n rows
    → AreBelow n (edited p c rows)
edited-AreBelow p c n [] b = rw (edited-nil p c) tt
edited-AreBelow p c n (r ∷ rows) b =
    let same = (plan-freeze_fields p (lowered_quotas p c) r).1 in
    let rest = edited-AreBelow p c n rows b.1 in
    rw (edited-cons p c r rows) (elim (Bool-cases (r.plan.id == p.id)) [
      | inl mine ↦ rw (mine, same) (b.0, rest)
      | inr other ↦ rw other (b.0, rest)
    ])

next-update_plan :
    (p : Plan) (c : PlanChanges) (db : Db)
    → (update_plan p c db).1.next_subscription ≡ db.next_subscription
unfolding update_plan
next-update_plan p c db = refl

pub update_plan-Fits :
    (pool : ℕ) (p : Plan) (c : PlanChanges) (db : Db)
    → KeepsSlots p c
    → IsRead p db.subscriptions
    → Fits pool db
    → Fits pool (update_plan p c db).1
unfolding monitored_slots_committed
update_plan-Fits pool p c db keeps read v =
    let rows = update_plan-edited p c db in
    let light = committed-edited p c db.subscriptions keeps read in
    let engaged : monitored_slots_committed db ≤ pool = v.engaged in
    record {
      keyed = rw rows (edited-IsKeyed p c db.subscriptions v.keyed);
      below =
          rw (rows, next-update_plan p c db)
            (edited-AreBelow p c db.next_subscription db.subscriptions v.below);
      engaged = rw rows (omega (arith, light, engaged));
    }

pub record_payment-Fits :
    (pool : ℕ) (s : Subscription) (amount received_at : ℕ) (reference note : String)
    (actor : Option ℕ) (db : Db)
    → Fits pool db
    → Fits pool (record_payment s amount received_at reference note actor db).1
unfolding record_payment
record_payment-Fits pool s amount received_at reference note actor db v =
    SameRows-Fits pool _ db refl refl v

pub duplicate_plan-Fits :
    (pool : ℕ) (p clone : Plan) (code name : String) (db after : Db)
    → duplicate_plan p code name db ≡ ok (clone, after)
    → Fits pool db
    → Fits pool after
unfolding duplicate_plan
duplicate_plan-Fits pool p clone code name db after h v =
    SameRows-Fits pool after db (ground arith) (ground arith) v

pub delete_plan-Fits :
    (pool : ℕ) (p : Plan) (name : String) (db after : Db)
    → delete_plan p db ≡ ok (name, after)
    → Fits pool db
    → Fits pool after
unfolding delete_plan
delete_plan-Fits pool p name db after h v =
    SameRows-Fits pool after db (ground arith) (ground arith) v
