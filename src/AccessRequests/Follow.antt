-- ===== src/AccessRequests/Follow.antt =====
-- backend/apps/access_requests: the life of a request over any sequence of deposits, withdrawals and
-- steps, each on a row as it is loaded, with other writes of the platform in between.
use rssi_as_a_service.Prelude.{
  ℕ, ◌≡◌, refl, ◌∙◌, sym, subst, String, Bool, true, false, not, List, ◌∷◌, Option, none, some,
  ◌==◌, arith, All, Bool-cases, inl, inr, ==→eq,
}
use rssi_as_a_service.AccessRequests.Model.{
  AccessRequest, Desk, Status, is_open, is_pending, is_unique, find_request, update_rows,
}
use rssi_as_a_service.AccessRequests.Services.{set_cancelled, is_advanceable, set_progress}
use rssi_as_a_service.AccessRequests.Table.{
  IsKeyed, AreBelow, KeepsSubject, find-below, find-update, find-update_ne,
}
use rssi_as_a_service.AccessRequests.Outcomes.{set_progress-KeepsSubject}

abbrev pub is_dated : Option ℕ → Bool
is_dated none = false
is_dated (some _) = true

-- The date of the decision stands exactly on a concluded request.
abbrev pub IsDecided : AccessRequest → Type 0
IsDecided r = is_dated r.handled_at ≡ not (is_open r.status)

pub record IsSound (desk : Desk) : Type 0 where
  pub keyed : IsKeyed desk.requests
  pub below : AreBelow desk.next_request desk.requests
  pub unique : is_unique desk.requests ≡ true
  pub decided : All IsDecided desk.requests

-- What a request becomes: its subject and its deposit stay, a concluded one stays as it is, and none
-- goes back to « nouvelle ».
pub record Follows (before after : AccessRequest) : Type 0 where
  pub id : after.id ≡ before.id
  pub tenant : after.tenant ≡ before.tenant
  pub subject_type : after.subject_type ≡ before.subject_type
  pub subject_key : after.subject_key ≡ before.subject_key
  pub subject_label : after.subject_label ≡ before.subject_label
  pub created_at : after.created_at ≡ before.created_at
  pub requested_by : after.requested_by ≡ before.requested_by
  pub concluded : is_open before.status ≡ false → after ≡ before
  pub onward : is_pending before.status ≡ false → is_pending after.status ≡ false

pub Follows-refl : (r : AccessRequest) → Follows r r
Follows-refl r = record {
  id = refl;
  tenant = refl;
  subject_type = refl;
  subject_key = refl;
  subject_label = refl;
  created_at = refl;
  requested_by = refl;
  concluded = λ _. refl;
  onward = λ h. h;
}

pub Follows-trans : (a b c : AccessRequest) → Follows a b → Follows b c → Follows a c
Follows-trans a b c f g = record {
  id = g.id ∙ f.id;
  tenant = g.tenant ∙ f.tenant;
  subject_type = g.subject_type ∙ f.subject_type;
  subject_key = g.subject_key ∙ f.subject_key;
  subject_label = g.subject_label ∙ f.subject_label;
  created_at = g.created_at ∙ f.created_at;
  requested_by = g.requested_by ∙ f.requested_by;
  concluded = λ h.
      (g.concluded (subst (λ x. is_open x.status ≡ false) (sym (f.concluded h)) h) ∙ f.concluded h);
  onward = λ h. g.onward (f.onward h);
}

-- Every row has a row that follows it.
abbrev pub RowsFollow : List AccessRequest → List AccessRequest → Type 0
RowsFollow before after =
    (i : ℕ) (r : AccessRequest)
    → find_request i before ≡ some r
    → (r' : AccessRequest) × (find_request i after ≡ some r') × Follows r r'

pub RowsFollow-same : (before after : List AccessRequest) → after ≡ before → RowsFollow before after
RowsFollow-same before after e i r h =
    (r, subst (λ x. find_request i x ≡ some r) (sym e) h, Follows-refl r)

-- A write on one loaded row.
pub update-RowsFollow :
    (f : AccessRequest → AccessRequest) (s : AccessRequest) (rows : List AccessRequest)
    → KeepsSubject f
    → find_request s.id rows ≡ some s
    → Follows s (f s)
    → RowsFollow rows (update_rows f s.id rows)
update-RowsFollow f s rows k l follows i r h = elim (Bool-cases (s.id == i)) [
  | inl same ↦
      let e = ==→eq s.id i same in
      let loaded = subst (λ x. find_request x rows ≡ some s) e l in
      let r-is : r ≡ s = ground (arith, h, loaded) in
      (
        f s,
        subst (λ x. find_request x (update_rows f s.id rows) ≡ some (f s)) e
            (find-update f k s.id s rows l),
        subst (λ x. Follows x (f s)) (sym r-is) follows,
      )
  | inr other ↦
      (r, find-update_ne f k s.id i rows (λ e. ground (arith, other, e)) ∙ h, Follows-refl r)
]

pub insert-RowsFollow :
    (n : ℕ) (q : AccessRequest) (rows : List AccessRequest)
    → AreBelow n rows
    → q.id ≡ n
    → RowsFollow rows (q ∷ rows)
unfolding find_request
insert-RowsFollow n q rows b e i r h =
    (r, ground (arith, find-below n i r rows b h, h, e), Follows-refl r)

pub set_cancelled-Follows :
    (user : Option ℕ) (now : ℕ) (r : AccessRequest)
    → is_open r.status ≡ true
    → Follows r (set_cancelled user now r)
unfolding set_cancelled
set_cancelled-Follows user now r o = record {
  id = refl;
  tenant = refl;
  subject_type = refl;
  subject_key = refl;
  subject_label = refl;
  created_at = refl;
  requested_by = refl;
  concluded = λ h. ground (arith, o, h);
  onward = λ h. refl;
}

pub set_progress-Follows :
    (status : Status) (response : String) (actor : Option ℕ) (now : ℕ) (r : AccessRequest)
    → is_open r.status ≡ true
    → is_advanceable status ≡ true
    → Follows r (set_progress status response actor now r)
set_progress-Follows status response actor now r o a =
    let k = set_progress-KeepsSubject status response actor now r in
    record {
      id = k.0;
      tenant = k.1;
      subject_type = k.2;
      subject_key = k.3;
      subject_label = unfold set_progress in (ground arith);
      created_at = unfold set_progress in (ground arith);
      requested_by = unfold set_progress in (ground arith);
      concluded = λ h. ground (arith, o, h);
      onward = λ h. unfold set_progress in (ground (arith, a));
    }

pub set_progress-IsDecided :
    (status : Status) (response : String) (actor : Option ℕ) (now : ℕ) (r : AccessRequest)
    → is_advanceable status ≡ true
    → IsDecided r
    → is_open r.status ≡ true
    → IsDecided (set_progress status response actor now r)
unfolding set_progress
set_progress-IsDecided status response actor now r a d o = ground arith
