-- ===== src/Billing/TrialMigration.antt =====
-- backend/apps/billing/trial_migration.py: the trials that are under way move to the trial offer.
use rssi_as_a_service.Prelude.{
  ℕ, String, Bool, true, false, ◌&&◌, not, List, [], ◌∷◌, ◌++◌, none, some, ltb, ◌==◌,
  if◌then◌else◌, keep,
}
use rssi_as_a_service.Billing.Model.{
  Plan, Subscription, is_internal, is_trial, moved_to_trial_plan, SubscriptionEvent, Db, save,
}
use rssi_as_a_service.Billing.Lifecycle.{record_event, find_plan_code}

-- `Bascule`: a trial that was moved, and `perd_des_emplacements`.
pub record Bascule : Type 0 where
  pub tenant : String
  pub offre_avant : String
  pub offre_apres : String
  pub emplacements_avant : ℕ
  pub emplacements_apres : ℕ

unfoldable pub perd_des_emplacements : Bascule → Bool
perd_des_emplacements b = ltb b.emplacements_apres b.emplacements_avant

-- `Rapport`: the clients moved, passed over and refused, and whether the trial offer was missing.
pub record Rapport : Type 0 where
  pub basculees : List Bascule
  pub ignorees : List String
  pub refusees : List String
  pub empechement : Bool

-- `_refus_de_capacite` gives a reason.
unfoldable pub refus_de_capacite : Plan → Plan → Bool
refus_de_capacite source essai = ltb source.monitored_assets essai.monitored_assets

abbrev pub move_to : Plan → Subscription → Subscription
move_to essai s = record s { plan = essai }

-- One turn of the loop.
unfoldable pub basculer : Plan → Subscription → Rapport × Db → Rapport × Db
unfolding refus_de_capacite
basculer essai s (r, db) =
    if is_internal s.plan.status
    then (record r { ignorees = r.ignorees ++ (s.tenant.name ∷ []) }, db)
    else if refus_de_capacite s.plan essai
    then (record r { refusees = r.refusees ++ (s.tenant.name ∷ []) }, db)
    else let event : SubscriptionEvent = record {
      subscription = s.id;
      from_status = some s.status;
      to_status = s.status;
      from_plan = s.plan.name;
      to_plan = essai.name;
      reason = moved_to_trial_plan;
      actor = none;
    } in
      let moved : Bascule = record {
        tenant = s.tenant.name;
        offre_avant = s.plan.code;
        offre_apres = essai.code;
        emplacements_avant = s.plan.monitored_assets;
        emplacements_apres = essai.monitored_assets;
      } in
      (
        record r { basculees = r.basculees ++ (moved ∷ []) },
        record_event event (save (move_to essai) s.id db),
      )

unfoldable pub basculer_each : Plan → List Subscription → Rapport × Db → Rapport × Db
unfolding basculer
basculer_each essai [] state = state
basculer_each essai (s ∷ rows) state = basculer_each essai rows (basculer essai s state)

abbrev pub empty_report : Bool → Rapport
empty_report missing = record {
  basculees = [];
  ignorees = [];
  refusees = [];
  empechement = missing;
}

abbrev pub is_candidate : Plan → Subscription → Bool
is_candidate essai s = is_trial s.status && not (s.plan.id == essai.id)

unfoldable pub basculer_essais : String → Db → Rapport × Db
unfolding basculer_each
basculer_essais code db = elim (find_plan_code code db.plans) [
  | none ↦ (empty_report true, db)
  | some essai ↦
      basculer_each essai (keep (is_candidate essai) db.subscriptions) (empty_report false, db)
]
