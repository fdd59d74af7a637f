-- ===== src/Billing/Commitment/Sweeps.antt =====
-- The two operations over the whole table, `expire_due_trials` and `basculer_essais`: both keep the
-- engagement within the pool, and the first one leaves nothing for a second pass.
use rssi_as_a_service.Prelude.{
  ℕ, suc, ◌+◌, ◌≤◌, ◌≡◌, refl, Bool, true, false, List, [], ◌∷◌, none, some, keep, count_of, length,
  arith, Bool-cases, Option-cases, inl, inr, String, ◌==◌, sym, subst, All,
}
use rssi_as_a_service.Billing.Model.{
  Plan, Subscription, expired, Db, is_internal, is_operational, monitored_assets_quota,
  find_subscription, save_rows, save, trial_period_over, SubscriptionEvent,
}
use rssi_as_a_service.Billing.Lifecycle.{
  is_due, set_expired, expire_each, expire_due_trials, record_event, status_event, find_plan_code,
}
use rssi_as_a_service.Billing.TrialMigration.{
  Rapport, basculer, basculer_each, basculer_essais, move_to, refus_de_capacite, is_candidate,
  empty_report,
}
use rssi_as_a_service.Billing.Rows.{
  IsKeyed, AreLoaded, KeepsKey, share, save-IsKeyed, save-AreLoaded, keep-IsKeyed, keep-AreLoaded,
  save_rows-absent,
}
use rssi_as_a_service.Billing.Commitment.{Fits, IsLoaded, SameRows-Fits, save-Fits, others-fit}

module _ (pool : ℕ) where
  -- One row's write that engages no more than before, with its event.
  lighter-Fits :
      (f : Subscription → Subscription) (s : Subscription) (e : SubscriptionEvent) (db : Db)
      → KeepsKey f
      → Fits pool db
      → IsLoaded s db
      → share (f s) ≤ share s
      → Fits pool (record_event e (save f s.id db))
  lighter-Fits f s e db k v l light =
      let others = others-fit pool s db v l in
      SameRows-Fits pool (record_event e (save f s.id db)) (save f s.id db) refl refl
        (save-Fits pool f s db k v l (omega (arith, others)))

  expire_each-Fits :
      (now : ℕ) (due : List Subscription) (count : ℕ) (db : Db)
      → IsKeyed due
      → AreLoaded due db.subscriptions
      → Fits pool db
      → Fits pool (expire_each now due count db).1
  unfolding expire_each
  expire_each-Fits now [] count db k l v = v
  expire_each-Fits now (s ∷ due) count db k l v =
      let event = status_event s expired trial_period_over none in
      expire_each-Fits now due (suc count) (record_event event (save (set_expired now) s.id db)) k.1
        (save-AreLoaded (set_expired now) s.id due db.subscriptions (λ _. refl) k.0 l.1)
        (lighter-Fits (set_expired now) s event db (λ _. refl) v l.0
          (unfold share in (omega arith)))

  pub expire_due_trials-Fits :
      (now : ℕ) (db : Db) → Fits pool db → Fits pool (expire_due_trials now db).1
  unfolding expire_due_trials
  expire_due_trials-Fits now db v =
      expire_each-Fits now (keep (is_due now) db.subscriptions) 0 db
        (keep-IsKeyed (is_due now) db.subscriptions v.keyed)
        (keep-AreLoaded (is_due now) db.subscriptions v.keyed) v

  -- One turn, on a loaded row: what it leaves fits, and rows with other keys stay loaded.
  move-lighter :
      (essai : Plan) (s : Subscription)
      → refus_de_capacite s.plan essai ≡ false
      → share (move_to essai s) ≤ share s
  unfolding refus_de_capacite share is_operational monitored_assets_quota
  move-lighter essai s h = ground arith

  -- One turn: what it leaves fits, and the rows with other keys stay loaded.
  basculer-Fits :
      (essai : Plan) (s : Subscription) (rows : List Subscription) (state : Rapport × Db)
      → find_subscription s.id rows ≡ none
      → IsLoaded s state.1
      → AreLoaded rows state.1.subscriptions
      → Fits pool state.1
      → Fits pool (basculer essai s state).1
        × AreLoaded rows (basculer essai s state).1.subscriptions
  unfolding basculer
  basculer-Fits essai s rows (r, db) k l ls v = elim (Bool-cases (is_internal s.plan.status)) [
    | inl internal_offer ↦ rw internal_offer (v, ls)
    | inr other ↦ elim (Bool-cases (refus_de_capacite s.plan essai)) [
      | inl refused ↦ rw (other, refused) (v, ls)
      | inr allowed ↦
          rw (other, allowed)
            (
              lighter-Fits (move_to essai) s _ db (λ _. refl) v l (move-lighter essai s allowed),
              save-AreLoaded (move_to essai) s.id rows db.subscriptions (λ _. refl) k ls,
            )
    ]
  ]

  basculer_each-Fits :
      (essai : Plan) (rows : List Subscription) (state : Rapport × Db)
      → IsKeyed rows
      → AreLoaded rows state.1.subscriptions
      → Fits pool state.1
      → Fits pool (basculer_each essai rows state).1
  unfolding basculer_each
  basculer_each-Fits essai [] state k l v = v
  basculer_each-Fits essai (s ∷ rows) state k l v =
      let turn = basculer-Fits essai s rows state k.0 l.0 l.1 v in
      basculer_each-Fits essai rows (basculer essai s state) k.1 turn.1 turn.0

  pub basculer_essais-Fits :
      (code : String) (db : Db) → Fits pool db → Fits pool (basculer_essais code db).1
  unfolding basculer_essais
  basculer_essais-Fits code db v = elim (Option-cases (find_plan_code code db.plans)) [
    | inl missing ↦ rw (missing, basculer_essais) v
    | inr (essai, e) ↦
        rw (e, basculer_essais)
          (basculer_each-Fits essai (keep (is_candidate essai) db.subscriptions)
            (empty_report false, db) (keep-IsKeyed (is_candidate essai) db.subscriptions v.keyed)
            (keep-AreLoaded (is_candidate essai) db.subscriptions v.keyed) v)
  ]

-- A trial that expires is one due row fewer.
count-due-absent :
    (now i : ℕ) (rows : List Subscription)
    → find_subscription i rows ≡ none
    → count_of (is_due now) (save_rows (set_expired now) i rows) ≡ count_of (is_due now) rows
unfolding count_of
count-due-absent now i rows h = rw (save_rows-absent (set_expired now) i rows h)

count-due-save :
    (now i : ℕ) (s : Subscription) (rows : List Subscription)
    → IsKeyed rows
    → find_subscription i rows ≡ some s
    → is_due now s ≡ true
    → suc (count_of (is_due now) (save_rows (set_expired now) i rows)) ≡ count_of (is_due now) rows
unfolding count_of save_rows find_subscription
count-due-save now i s [] k h d = cc
count-due-save now i s (r ∷ rows) k h d = elim (Bool-cases (r.id == i)) [
  | inl here ↦
      let same : r ≡ s = ground arith in
      rw (
        here,
        subst (λ x. is_due now x ≡ true) (sym same) d,
        save_rows-absent (set_expired now) i rows (ground (arith, k.0)),
      )
  | inr there ↦
      let rest = count-due-save now i s rows k.1 (ground arith) d in rw there (ground (arith, rest))
]

expire_each-due :
    (now : ℕ) (due : List Subscription) (n : ℕ) (db : Db)
    → IsKeyed due
    → IsKeyed db.subscriptions
    → AreLoaded due db.subscriptions
    → All (λ s. is_due now s ≡ true) due
    → count_of (is_due now) (expire_each now due n db).1.subscriptions + length due
      ≡ count_of (is_due now) db.subscriptions
unfolding expire_each
expire_each-due now [] n db k v l d = omega arith
expire_each-due now (s ∷ due) n db k v l d =
    let write = set_expired now in
    let event = status_event s expired trial_period_over none in
    let one = count-due-save now s.id s db.subscriptions v l.0 d.0 in
    let rest =
      expire_each-due now due (suc n) (record_event event (save write s.id db)) k.1
        (save-IsKeyed write s.id db.subscriptions (λ _. refl) v)
        (save-AreLoaded write s.id due db.subscriptions (λ _. refl) k.0 l.1) d.1 in
    omega (arith, one, rest)

expire_each-count :
    (now : ℕ) (due : List Subscription) (n : ℕ) (db : Db)
    → (expire_each now due n db).0 ≡ n + length due
unfolding expire_each
expire_each-count now [] n db = omega arith
expire_each-count now (s ∷ due) n db = omega (arith, expire_each-count now due (suc n) _)

All-keep :
    (p : Subscription → Bool) (rows : List Subscription) → All (λ s. p s ≡ true) (keep p rows)
unfolding keep
All-keep p [] = tt
All-keep p (r ∷ rows) = elim (Bool-cases (p r)) [
  | inl kept ↦ rw kept (kept, All-keep p rows)
  | inr dropped ↦ rw dropped (All-keep p rows)
]

length-keep :
    (p : Subscription → Bool) (rows : List Subscription) → length (keep p rows) ≡ count_of p rows
unfolding keep count_of
length-keep p [] = refl
length-keep p (r ∷ rows) = ground (arith, length-keep p rows)

keep-none :
    (p : Subscription → Bool) (rows : List Subscription) → count_of p rows ≡ 0 → keep p rows ≡ []
unfolding keep count_of
keep-none p [] h = refl
keep-none p (r ∷ rows) h = ground (arith, keep-none p rows)

-- On a table with distinct keys, a pass counts the trials that are due, leaves none of them due, and
-- so a second pass at the same instant counts 0 and writes nothing.
pub expire_due_trials-idempotent :
    (now : ℕ) (db : Db)
    → IsKeyed db.subscriptions
    → let (count, after) = expire_due_trials now db in
      (count ≡ count_of (is_due now) db.subscriptions) × (expire_due_trials now after ≡ (0, after))
unfolding expire_due_trials
expire_due_trials-idempotent now db k =
    let due = keep (is_due now) db.subscriptions in
    let after = expire_each now due 0 db in
    let total = length-keep (is_due now) db.subscriptions in
    let left =
      expire_each-due now due 0 db (keep-IsKeyed (is_due now) db.subscriptions k) k
        (keep-AreLoaded (is_due now) db.subscriptions k) (All-keep (is_due now) db.subscriptions) in
    let nothing : count_of (is_due now) after.1.subscriptions ≡ 0 = omega (arith, left, total) in
    (
      omega (arith, expire_each-count now due 0 db, total),
      rw (keep-none (is_due now) after.1.subscriptions nothing, expire_each) refl,
    )
