-- ===== src/Billing/Commitment/Reach.antt =====
-- The life of the table of subscriptions as a sequence of steps, one for each operation that services.py
-- and trial_migration.py commit, at any instants and with any answers of the mail server, under one
-- size of the pool.
use rssi_as_a_service.Prelude.{ℕ, ◌≡◌, sym, subst, List, Option, String, Result, ok}
use rssi_as_a_service.Billing.Model.{Plan, Tenant, Subscription, Period, Db, Env}
use rssi_as_a_service.Billing.Lifecycle.{
  BillingError, start_trial, activate, suspend, cancel, change_plan, expire_due_trials,
  set_trial_end, record_payment,
}
use rssi_as_a_service.Billing.Catalogue.{PlanChanges, update_plan, duplicate_plan, delete_plan}
use rssi_as_a_service.Billing.Negotiation.{
  QuotaOverrides, set_quota_overrides, set_feature_overrides, clear_feature_overrides,
  set_internal_notes,
}
use rssi_as_a_service.Billing.TrialMigration.{basculer_essais}
use rssi_as_a_service.Billing.Commitment.{Fits, IsLoaded, Kept}
use rssi_as_a_service.Billing.Commitment.Operations.{
  activate-Kept, suspend-Fits, cancel-Fits, change_plan-Kept, set_trial_end-Kept,
  set_quota_overrides-Kept, set_feature_overrides-Kept, clear_feature_overrides-Fits,
  set_internal_notes-Fits, start_trial-Kept,
}
use rssi_as_a_service.Billing.Commitment.Edits.{
  KeepsSlots, IsRead, update_plan-Fits, record_payment-Fits, duplicate_plan-Fits, delete_plan-Fits,
}
use rssi_as_a_service.Billing.Commitment.Sweeps.{expire_due_trials-Fits, basculer_essais-Fits}

-- A call on one subscription, as services.py offers it.
pub data Call : Type 0 where
  activating : Option Period → Option ℕ → String → Call
  suspending cancelling : Option ℕ → String → Call
  changing_plan : Plan → Option ℕ → String → Call
  moving_trial_end : ℕ → Option ℕ → String → Call
  overriding_quotas : QuotaOverrides → Option ℕ → Call
  composing : List String → Option ℕ → Call
  clearing : Option ℕ → Call
  noting : String → Call

unfoldable pub run_call : Env → Call → Subscription → Db → Result BillingError (Subscription × Db)
run_call env (activating period actor reason) s db = activate env s period actor reason db
run_call env (suspending actor reason) s db = ok (suspend s actor reason db)
run_call env (cancelling actor reason) s db = ok (cancel env s actor reason db)
run_call env (changing_plan plan actor reason) s db = change_plan env s plan actor reason db
run_call env (moving_trial_end t actor reason) s db = set_trial_end s t actor reason db
run_call env (overriding_quotas o actor) s db = set_quota_overrides env s o actor db
run_call env (composing keys actor) s db = set_feature_overrides s keys actor db
run_call env (clearing actor) s db = ok (clear_feature_overrides s actor db)
run_call env (noting notes) s db = ok (set_internal_notes s notes db)

-- One committed transaction. A change of an offer counts where it raises no limited offer's slots; one
-- that does is in Billing.Catalogue.Engagement.
pub data Step (pool : ℕ) (db after : Db) : Type 0 where
  calls :
      (env : Env) (c : Call) (s s' : Subscription)
      → env.monitored_slot_pool ≡ pool
      → IsLoaded s db
      → run_call env c s db ≡ ok (s', after)
      → Step pool db after
  opens :
      (env : Env) (tenant : Tenant) (plan : Option Plan) (actor days : Option ℕ) (s : Subscription)
      → env.monitored_slot_pool ≡ pool
      → start_trial env tenant plan actor days db ≡ ok (s, after)
      → Step pool db after
  expires : (now : ℕ) → (expire_due_trials now db).1 ≡ after → Step pool db after
  edits :
      (p : Plan) (c : PlanChanges)
      → KeepsSlots p c
      → IsRead p db.subscriptions
      → (update_plan p c db).1 ≡ after
      → Step pool db after
  duplicates :
      (p clone : Plan) (code name : String)
      → duplicate_plan p code name db ≡ ok (clone, after)
      → Step pool db after
  deletes : (p : Plan) (name : String) → delete_plan p db ≡ ok (name, after) → Step pool db after
  pays :
      (s : Subscription) (amount received_at : ℕ) (reference note : String) (actor : Option ℕ)
      → (record_payment s amount received_at reference note actor db).1 ≡ after
      → Step pool db after
  moves : (code : String) → (basculer_essais code db).1 ≡ after → Step pool db after

pub data Reach (pool : ℕ) (db : Db) : Db → Type 0 where
  here : Reach pool db db
  next : {mid after : Db} → Reach pool db mid → Step pool mid after → Reach pool db after

run_call-Kept :
    (env : Env) (c : Call) (s : Subscription) (db : Db)
    → Fits env.monitored_slot_pool db
    → IsLoaded s db
    → Kept env.monitored_slot_pool (run_call env c s db)
unfolding run_call
run_call-Kept env (activating period actor reason) s db v l =
    activate-Kept env s db v l period actor reason
run_call-Kept env (suspending actor reason) s db v l = suspend-Fits env s db v l actor reason
run_call-Kept env (cancelling actor reason) s db v l = cancel-Fits env s db v l actor reason
run_call-Kept env (changing_plan plan actor reason) s db v l =
    change_plan-Kept env s db v l plan actor reason
run_call-Kept env (moving_trial_end t actor reason) s db v l =
    set_trial_end-Kept env s db v l t actor reason
run_call-Kept env (overriding_quotas o actor) s db v l =
    set_quota_overrides-Kept env s db v l o actor
run_call-Kept env (composing keys actor) s db v l =
    set_feature_overrides-Kept env s db v l keys actor
run_call-Kept env (clearing actor) s db v l = clear_feature_overrides-Fits env s db v l actor
run_call-Kept env (noting notes) s db v l = set_internal_notes-Fits env s db v l notes

Step-Fits : (pool : ℕ) {db after : Db} → Fits pool db → Step pool db after → Fits pool after
Step-Fits pool {db} {after} v (calls env c s s' same l done) =
    let kept = run_call-Kept env c s db (subst (λ n. Fits n db) (sym same) v) l in
    subst (λ n. Fits n after) same (subst (Kept env.monitored_slot_pool) done kept)
Step-Fits pool {db} {after} v (opens env tenant plan actor days s same done) =
    let kept =
      start_trial-Kept env tenant plan actor days db (subst (λ n. Fits n db) (sym same) v) in
    subst (λ n. Fits n after) same (subst (Kept env.monitored_slot_pool) done kept)
Step-Fits pool {db} {after} v (expires now done) =
    subst (Fits pool) done (expire_due_trials-Fits pool now db v)
Step-Fits pool {db} {after} v (edits p c keeps read done) =
    subst (Fits pool) done (update_plan-Fits pool p c db keeps read v)
Step-Fits pool {db} {after} v (duplicates p clone code name done) =
    duplicate_plan-Fits pool p clone code name db after done v
Step-Fits pool {db} {after} v (deletes p name done) = delete_plan-Fits pool p name db after done v
Step-Fits pool {db} {after} v (pays s amount received_at reference note actor done) =
    subst (Fits pool) done (record_payment-Fits pool s amount received_at reference note actor db v)
Step-Fits pool {db} {after} v (moves code done) =
    subst (Fits pool) done (basculer_essais-Fits pool code db v)

-- From a table with distinct keys whose subscriptions in service engage no more slots than the
-- pool, every sequence of committed operations of services.py and of trial_migration.py, each on a row
-- as it stands in the present table, leads to such a table, as long as the size of the pool stays and
-- each `update_plan` among them leaves or lowers the offer's slots, or finds them without a limit.
pub Reach-Fits : (pool : ℕ) {db after : Db} → Fits pool db → Reach pool db after → Fits pool after
Reach-Fits pool v here = v
Reach-Fits pool v (next r step) = Step-Fits pool (Reach-Fits pool v r) step
