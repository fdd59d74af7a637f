-- ===== src/Billing/Negotiation/Coherence.antt =====
-- A composition that `set_feature_overrides` accepts makes sense, and is what the client gets.
use rssi_as_a_service.Prelude.{
  ℕ, ◌≡◌, ◌≢◌, refl, sym, ap, ◌∙◌, subst, true, List, [], ◌∷◌, ◌++◌, Option, none, some, String,
  str_eq, eq_iff, contains, keep, ok, arith, Bool-cases, inl, inr, get_or,
}
use rssi_as_a_service.Billing.Features.{
  QuotaAttribute, watched_accounts_quota, monitored_assets_quota as slots_quota, depend_de,
  quota_requis, sanitize, training, training_studio, watched_accounts, realtime_monitoring, Problem,
}
use rssi_as_a_service.Billing.Features.Laws.{contains-keep, sanitize-sanitize}
use rssi_as_a_service.Billing.Model as M
use rssi_as_a_service.Billing.Model.{
  Subscription, Db, effective_features, monitored_assets_quota, find_subscription, save_rows,
}
use rssi_as_a_service.Billing.Rows.{KeepsKey}
use rssi_as_a_service.Billing.Commitment.{IsLoaded}
use rssi_as_a_service.Billing.Negotiation.{
  same_keys, same_features, alphabetical, missing_of, dependency_problems, quota_of, quota_problems,
  incoherences_de_composition, set_features, compose, set_feature_overrides,
}

-- What the registry asks of a set of features for a client.
pub record IsCoherent (s : Subscription) (kept : List String) : Type 0 where
  pub studio : contains kept training_studio ≡ true → contains kept training ≡ true
  pub accounts : contains kept watched_accounts ≡ true → M.watched_accounts_quota s ≢ 0
  pub monitoring : contains kept realtime_monitoring ≡ true → monitored_assets_quota s ≢ 0

append-nil_parts : (xs ys : List Problem) → xs ++ ys ≡ [] → (xs ≡ []) × (ys ≡ [])
append-nil_parts [] ys h = (refl, h)
append-nil_parts (x ∷ xs) ys h = cc

contains-subst :
    (kept : List String) (a b : String) → str_eq a b ≡ true → contains kept a ≡ contains kept b
contains-subst kept a b h = ap (contains kept) ((eq_iff a b).0 h)

missing_of-nil :
    (kept : List String) (key : String) (ds : List String) (d : String)
    → missing_of kept key ds ≡ []
    → contains ds d ≡ true
    → contains kept d ≡ true
unfolding missing_of contains
missing_of-nil kept key [] d h m = cc
missing_of-nil kept key (x ∷ ds) d h m =
    ground (arith, missing_of-nil kept key ds d, contains-subst kept x d)

dependency-met :
    (kept keys : List String) (key d : String)
    → dependency_problems kept keys ≡ []
    → contains keys key ≡ true
    → contains (depend_de key) d ≡ true
    → contains kept d ≡ true
unfolding dependency_problems
dependency-met kept [] key d h m n = unfold contains in cc
dependency-met kept (x ∷ keys) key d h m n =
    let (one, rest) = append-nil_parts (missing_of kept x (depend_de x)) _ h in
    elim (Bool-cases (str_eq x key)) [
      | inl same ↦
          missing_of-nil kept x (depend_de x) d one
            (subst (λ k. contains (depend_de k) d ≡ true) (sym ((eq_iff x key).0 same)) n)
      | inr other ↦ dependency-met kept keys key d rest (unfold contains in (ground arith)) n
    ]

studio_needs_training : contains (depend_de training_studio) training ≡ true
unfolding contains depend_de
studio_needs_training = refl

studio_listed : contains alphabetical training_studio ≡ true
unfolding contains alphabetical
studio_listed = refl

quota_problems-met :
    (s : Subscription) (kept : List String) (rest : List (String × QuotaAttribute)) (key : String)
    (q : QuotaAttribute)
    → quota_problems s kept ((key, q) ∷ rest) ≡ []
    → (contains kept key ≡ true → quota_of s q ≢ 0) × (quota_problems s kept rest ≡ [])
unfolding quota_problems
quota_problems-met s kept rest key q h = (λ held. ground arith, ground arith)

-- No problem is found only in a coherent set.
pub incoherences-IsCoherent :
    (s : Subscription) (keys : List String)
    → incoherences_de_composition s keys ≡ []
    → IsCoherent s (sanitize keys)
unfolding incoherences_de_composition quota_of quota_requis
incoherences-IsCoherent s keys h =
    let kept = sanitize keys in
    let (deps, quotas) =
      append-nil_parts (dependency_problems kept (keep (contains kept) alphabetical))
        (quota_problems s kept quota_requis) h in
    let last : List (String × QuotaAttribute) = (realtime_monitoring, slots_quota) ∷ [] in
    let (accounts, rest) =
      quota_problems-met s kept last watched_accounts watched_accounts_quota quotas in
    record {
      studio = λ held.
          dependency-met kept (keep (contains kept) alphabetical) training_studio training deps
            (contains-keep (contains kept) alphabetical training_studio
              ∙ rw (studio_listed, held) refl)
            studio_needs_training;
      accounts = accounts;
      monitoring = (quota_problems-met s kept [] realtime_monitoring slots_quota rest).0;
    }

same_keys-eq : (xs ys : List String) → same_keys xs ys ≡ true → xs ≡ ys
unfolding same_keys
same_keys-eq [] [] h = refl
same_keys-eq [] (y ∷ ys) h = cc
same_keys-eq (x ∷ xs) [] h = cc
same_keys-eq (x ∷ xs) (y ∷ ys) h = ground (arith, eq_iff x y, same_keys-eq xs ys)

same_features-eq : (a b : Option (List String)) → same_features a b ≡ true → a ≡ b
unfolding same_features
same_features-eq none none h = refl
same_features-eq none (some b) h = cc
same_features-eq (some a) none h = cc
same_features-eq (some a) (some b) h = ap some (same_keys-eq a b h)

compose-features :
    (s s' : Subscription) (kept : List String) (actor : Option ℕ) (db after : Db)
    (ps : List Problem)
    → compose s kept actor db ps ≡ ok (s', after)
    → (ps ≡ []) × (s'.override_features ≡ some kept) × (s' ≡ set_features (some kept) s)
unfolding compose
compose-features s s' kept actor db after (p ∷ ps) h = cc
compose-features s s' kept actor db after [] h =
    elim (Bool-cases (same_features s.override_features (some kept))) [
      | inl same ↦
          let e = same_features-eq s.override_features (some kept) same in
          (refl, ground (arith, e), ground (arith, e))
      | inr other ↦ (refl, ground arith, ground arith)
    ]

find-save_rows :
    (f : Subscription → Subscription) (i : ℕ) (s : Subscription) (rows : List Subscription)
    → KeepsKey f
    → find_subscription i rows ≡ some s
    → find_subscription i (save_rows f i rows) ≡ some (f s)
unfolding find_subscription save_rows
find-save_rows f i s [] k h = cc
find-save_rows f i s (r ∷ rows) k h = ground (arith, k r, find-save_rows f i s rows k)

-- The row of the table is the subscription that is returned.
compose-IsLoaded :
    (s s' : Subscription) (kept : List String) (actor : Option ℕ) (db after : Db)
    (ps : List Problem)
    → IsLoaded s db
    → compose s kept actor db ps ≡ ok (s', after)
    → find_subscription s.id after.subscriptions ≡ some s'
unfolding compose
compose-IsLoaded s s' kept actor db after (p ∷ ps) l h = cc
compose-IsLoaded s s' kept actor db after [] l h =
    let write = set_features (some kept) in
    let written = find-save_rows write s.id s db.subscriptions (λ _. refl) l in
    elim (Bool-cases (same_features s.override_features (some kept))) [
      | inl same ↦ ground arith
      | inr other ↦ ground (arith, written)
    ]

-- Features do not change the quotas that they need.
set_features-IsCoherent :
    (s : Subscription) (f : Option (List String)) (kept : List String)
    → IsCoherent s kept
    → IsCoherent (set_features f s) kept
unfolding M.watched_accounts_quota monitored_assets_quota
set_features-IsCoherent s f kept h = record {
  studio = h.studio;
  accounts = h.accounts;
  monitoring = h.monitoring;
}

-- A composition that is accepted, of a subscription as it stands in the table, is saved: the row with
-- its key is then the subscription returned, which has exactly the known keys that were asked for, and
-- they are coherent for it.
pub set_feature_overrides-IsCoherent :
    (s s' : Subscription) (keys : List String) (actor : Option ℕ) (db after : Db)
    → IsLoaded s db
    → set_feature_overrides s keys actor db ≡ ok (s', after)
    → (find_subscription s.id after.subscriptions ≡ some s')
      × (effective_features s' ≡ sanitize keys)
      × IsCoherent s' (effective_features s')
unfolding set_feature_overrides effective_features
set_feature_overrides-IsCoherent s s' keys actor db after l h =
    let kept = sanitize keys in
    let (nothing, mine, written) =
      compose-features s s' kept actor db after (incoherences_de_composition s kept) h in
    let features : sanitize (get_or s'.override_features s'.plan.features) ≡ kept =
      rw mine (sanitize-sanitize keys) in
    let coherent : IsCoherent s kept =
      rw (sanitize-sanitize keys) at (incoherences-IsCoherent s kept nothing) in
    let result : IsCoherent (set_features (some kept) s) (sanitize kept) =
      rw (sanitize-sanitize keys) (set_features-IsCoherent s (some kept) kept coherent) in
    (
      compose-IsLoaded s s' kept actor db after (incoherences_de_composition s kept) l h,
      features,
      subst (λ x. IsCoherent x (sanitize (get_or x.override_features x.plan.features)))
          (sym written) result,
    )
