-- ===== src/Billing/Commitment/Operations.antt =====
-- Every operation of services.py on one subscription keeps the engagement within the pool.
use rssi_as_a_service.Prelude.{
  ℕ, ◌+◌, ◌≤◌, ◌≡◌, refl, List, [], ◌∷◌, Option, none, some, ok, or_else, arith, Bool-cases,
  Option-cases, inl, inr, String, get_or, ◌==◌,
}
use rssi_as_a_service.Billing.Model.{
  Plan, Tenant, Subscription, active, suspended, cancelled, Period, Db, Env, is_active, is_trial,
  is_operational, monitored_assets_quota, save, subscription_activated, subscription_suspended,
  subscription_cancelled, trial_end_moved, features_composed, features_restored,
}
use rssi_as_a_service.Billing.Capacity.{
  committed_slots, monitored_slots_committed, ensure_monitored_slots_available,
}
use rssi_as_a_service.Billing.Lifecycle.{
  capacity_guard, start_trial, open_trial, new_trial, activate, reactivation_guard, suspend, cancel,
  change_plan, upgrade_guard, set_trial_end, has_subscription, get_default_trial_plan, record_event,
  status_event, set_active, period_length, reason_or, set_suspended, set_cancelled, set_plan,
  set_trial_ends_at,
}
use rssi_as_a_service.Billing.Negotiation.{
  QuotaOverrides, set_quota_overrides, changed_overrides, rise_guard, set_overrides, is_unchanged,
  compose, set_features, set_feature_overrides, clear_feature_overrides, set_notes,
  set_internal_notes, same_features,
}
use rssi_as_a_service.Billing.Features.{Problem}
use rssi_as_a_service.Billing.Rows.{share, find-AreBelow, AreBelow-suc}
use rssi_as_a_service.Billing.Commitment.{
  Fits, IsLoaded, Kept, ensure-fits, guarded-Kept, capacity_guard-ok, written-Fits, alerts-Fits,
  save-Fits, others-fit, room_for, reactivation_room,
}

module _ (env : Env) (s : Subscription) (db : Db) (v : Fits env.monitored_slot_pool db)
    (l : IsLoaded s db) where
  -- The engagement of the others and of the subscription fits; so does that of a lighter write.
  lighter :
      (f : Subscription → Subscription)
      → share (f s) ≤ share s
      → committed_slots (some s.id) db.subscriptions + share (f s) ≤ env.monitored_slot_pool
  lighter f h = let others = others-fit env.monitored_slot_pool s db v l in omega (arith, others)

  share-set_active : (p : Period) (t : ℕ) → share (set_active p t s) ≡ monitored_assets_quota s
  unfolding share monitored_assets_quota
  share-set_active p t = refl

  pub activate-Kept :
      (period : Option Period) (actor : Option ℕ) (reason : String)
      → Kept env.monitored_slot_pool (activate env s period actor reason db)
  unfolding activate
  activate-Kept period actor reason = elim (Bool-cases (is_active s.status)) [
    | inl already ↦ rw already v
    | inr other ↦ rw other (
        guarded-Kept env.monitored_slot_pool (reactivation_guard env s db) _ λ passed.
          let length = get_or period s.period in
          let write = set_active length (env.now + period_length length) in
          let event = status_event s active (reason_or reason subscription_activated) actor in
          alerts-Fits env.monitored_slot_pool env (record_event event (save write s.id db)) (
            written-Fits env write s event db (λ _. refl) v l
              (rw share-set_active (reactivation_room env s db v l passed))))
  ]

  pub suspend-Fits :
      (actor : Option ℕ) (reason : String)
      → Fits env.monitored_slot_pool (suspend s actor reason db).1
  unfolding suspend
  suspend-Fits actor reason =
      written-Fits env set_suspended s
        (status_event s suspended (reason_or reason subscription_suspended) actor) db (λ _. refl) v
        l (lighter set_suspended (unfold share in (omega arith)))

  pub cancel-Fits :
      (actor : Option ℕ) (reason : String)
      → Fits env.monitored_slot_pool (cancel env s actor reason db).1
  unfolding cancel
  cancel-Fits actor reason =
      written-Fits env (set_cancelled env.now) s
        (status_event s cancelled (reason_or reason subscription_cancelled) actor) db (λ _. refl) v
        l (lighter (set_cancelled env.now) (unfold share in (omega arith)))

  upgrade_room :
      (plan : Plan)
      → upgrade_guard env s plan db ≡ ok tt
      → committed_slots (some s.id) db.subscriptions + share (set_plan plan s)
        ≤ env.monitored_slot_pool
  unfolding upgrade_guard share monitored_assets_quota is_operational
  upgrade_room plan g =
      let others = others-fit env.monitored_slot_pool s db v l in
      ground (arith, others, room_for env s db v l plan.monitored_assets)

  pub change_plan-Kept :
      (plan : Plan) (actor : Option ℕ) (reason : String)
      → Kept env.monitored_slot_pool (change_plan env s plan actor reason db)
  unfolding change_plan
  change_plan-Kept plan actor reason = elim (Bool-cases (plan.id == s.plan.id)) [
    | inl same ↦ rw same v
    | inr other ↦ rw other (
        guarded-Kept env.monitored_slot_pool (upgrade_guard env s plan db) _ λ passed.
          alerts-Fits env.monitored_slot_pool env _
            (written-Fits env (set_plan plan) s _ db (λ _. refl) v l (upgrade_room plan passed)))
  ]

  pub set_trial_end-Kept :
      (ends_at : ℕ) (actor : Option ℕ) (reason : String)
      → Kept env.monitored_slot_pool (set_trial_end s ends_at actor reason db)
  unfolding set_trial_end
  set_trial_end-Kept ends_at actor reason = elim (Bool-cases (is_trial s.status)) [
    | inl passed ↦
        let event =
          status_event s s.status (reason_or reason (trial_end_moved ends_at s.trial_ends_at))
            actor in
        rw passed (
          written-Fits env (set_trial_ends_at ends_at) s event db (λ _. refl) v l
            (lighter (set_trial_ends_at ends_at)
              (unfold share is_operational monitored_assets_quota in (omega arith))))
    | inr refused ↦ rw refused tt
  ]

  -- A write of overrides that keeps the slots as they are, or that the guard let pass.
  overrides_room :
      (c : QuotaOverrides)
      → rise_guard env s c.monitored_assets db ≡ ok tt
      → committed_slots (some s.id) db.subscriptions + share (set_overrides c s)
        ≤ env.monitored_slot_pool
  unfolding rise_guard share is_operational monitored_assets_quota
  overrides_room c g =
      let others = others-fit env.monitored_slot_pool s db v l in
      elim (Option-cases c.monitored_assets) [
        | inl unchanged ↦ ground (arith, others)
        | inr (quota, e) ↦
            ground (arith, others, room_for env s db v l (get_or quota s.plan.monitored_assets))
      ]

  pub set_quota_overrides-Kept :
      (overrides : QuotaOverrides) (actor : Option ℕ)
      → Kept env.monitored_slot_pool (set_quota_overrides env s overrides actor db)
  unfolding set_quota_overrides
  set_quota_overrides-Kept overrides actor =
      let c = changed_overrides overrides s in
      elim (Bool-cases (is_unchanged c)) [
        | inl same ↦ rw same v
        | inr other ↦ rw other (
            guarded-Kept env.monitored_slot_pool (rise_guard env s c.monitored_assets db) _
              λ passed. alerts-Fits env.monitored_slot_pool env _ (
                written-Fits env (set_overrides c) s _ db (λ _. refl) v l
                  (overrides_room c passed)))
      ]

  share-set_features : (f : Option (List String)) → share (set_features f s) ≤ share s
  unfolding share is_operational monitored_assets_quota
  share-set_features f = omega arith

  compose-Kept :
      (kept : List String) (actor : Option ℕ) (ps : List Problem)
      → Kept env.monitored_slot_pool (compose s kept actor db ps)
  unfolding compose
  compose-Kept kept actor (p ∷ ps) = tt
  compose-Kept kept actor [] = elim (Bool-cases (same_features s.override_features (some kept))) [
    | inl same ↦ rw same v
    | inr other ↦ rw other (
        written-Fits env (set_features (some kept)) s
          (status_event s s.status features_composed actor) db (λ _. refl) v l
          (lighter (set_features (some kept)) (share-set_features (some kept))))
  ]

  pub set_feature_overrides-Kept :
      (keys : List String) (actor : Option ℕ)
      → Kept env.monitored_slot_pool (set_feature_overrides s keys actor db)
  unfolding set_feature_overrides
  set_feature_overrides-Kept keys actor = compose-Kept _ actor _

  pub clear_feature_overrides-Fits :
      (actor : Option ℕ) → Fits env.monitored_slot_pool (clear_feature_overrides s actor db).1
  unfolding clear_feature_overrides
  clear_feature_overrides-Fits actor = elim (Option-cases s.override_features) [
    | inl absent ↦ rw (absent) v
    | inr (keys, e) ↦ rw e (
        written-Fits env (set_features none) s (status_event s s.status features_restored actor) db
          (λ _. refl) v l (lighter (set_features none) (share-set_features none)))
  ]

  pub set_internal_notes-Fits :
      (notes : String) → Fits env.monitored_slot_pool (set_internal_notes s notes db).1
  unfolding set_internal_notes share is_operational monitored_assets_quota
  set_internal_notes-Fits notes =
      save-Fits env.monitored_slot_pool (set_notes notes) s db (λ _. refl) v l
        (lighter (set_notes notes) (omega arith))

open_trial-Fits :
    (env : Env) (tenant : Tenant) (p : Plan) (actor : Option ℕ) (days : ℕ) (db : Db)
    → Fits env.monitored_slot_pool db
    → ensure_monitored_slots_available env p.monitored_assets none db ≡ ok tt
    → Fits env.monitored_slot_pool (open_trial env tenant p actor days db).1
unfolding open_trial new_trial committed_slots monitored_slots_committed
open_trial-Fits env tenant p actor days db v passed =
    let pool = env.monitored_slot_pool in
    let engaged : monitored_slots_committed db ≤ pool = v.engaged in
    alerts-Fits pool env _ (record {
      keyed = (find-AreBelow db.next_subscription db.subscriptions v.below, v.keyed);
      below = (omega arith, AreBelow-suc db.next_subscription db.subscriptions v.below);
      engaged = ground (arith, engaged, ensure-fits env p.monitored_assets none db passed);
    })

-- Opening a trial for a client.
pub start_trial-Kept :
    (env : Env) (tenant : Tenant) (plan : Option Plan) (actor days : Option ℕ) (db : Db)
    → Fits env.monitored_slot_pool db
    → Kept env.monitored_slot_pool (start_trial env tenant plan actor days db)
unfolding start_trial
start_trial-Kept env tenant plan actor days db v =
    elim (Bool-cases (has_subscription tenant.id db.subscriptions)) [
      | inl held ↦ rw held tt
      | inr free ↦ elim (Option-cases (or_else plan (get_default_trial_plan env db.plans))) [
        | inl nothing ↦ rw (free, nothing) tt
        | inr (p, e) ↦
            rw (free, e)
              (guarded-Kept env.monitored_slot_pool
                (capacity_guard (ensure_monitored_slots_available env p.monitored_assets none db)) _
                λ passed.
                  open_trial-Fits env tenant p actor (get_or days env.trial_days) db v
                    (capacity_guard-ok _ passed))
      ]
    ]
