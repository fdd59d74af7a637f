-- ===== src/AccessRequests/Outcomes.antt =====
-- backend/apps/access_requests/services.py: what each operation does on each branch.
use rssi_as_a_service.Prelude.{
  ℕ, suc, ◌≡◌, refl, String, Bool, true, ◌∷◌, Option, none, some, arith, Bool-cases, Option-cases,
  Result-cases, ok, inl, inr, str_eq, ◌⊎◌,
}
use rssi_as_a_service.Billing.Model.{Tenant}
use rssi_as_a_service.Assessments.{get_referential, assign_referential}
use rssi_as_a_service.AccessRequests.Model.{
  AccessRequest, Desk, Status, granted, is_open, is_unique, update_rows,
}
use rssi_as_a_service.AccessRequests.Subjects.{
  Grant, grant_note, referential, feature, get_subject, grant_referential,
}
use rssi_as_a_service.AccessRequests.Services.{
  Ask, new_request, check_request, insert_request, create_request, set_cancelled, cancel_request,
  is_advanceable, grant_of, run_grant, attribute, set_progress, response_or, advance_request,
}
use rssi_as_a_service.AccessRequests.Table.{KeepsSubject}

pub set_progress-KeepsSubject :
    (status : Status) (response : String) (actor : Option ℕ) (now : ℕ)
    → KeepsSubject (set_progress status response actor now)
unfolding set_progress
set_progress-KeepsSubject status response actor now r = ground arith

-- A successful `create_request` inserts one row, under the next key, and the table stays unique.
pub create_request-inserts :
    (seen : Desk) (a : Ask) (now : ℕ) (desk after : Desk) (r : AccessRequest)
    → create_request seen a now desk ≡ ok (r, after)
    → (label : String) × (r ≡ new_request desk.next_request a label now)
      × (after.requests ≡ r ∷ desk.requests)
      × (after.next_request ≡ suc desk.next_request)
      × (is_unique (r ∷ desk.requests) ≡ true)
unfolding create_request insert_request
create_request-inserts seen a now desk after r done = elim (Result-cases (check_request a seen)) [
  | inl (label, e) ↦
      (label, (ground (arith, e)), (ground (arith, e)), (ground (arith, e)), (ground (arith, e)))
  | inr (e, refused) ↦ ground (arith, refused)
]

pub cancel_request-writes :
    (r : AccessRequest) (user : Option ℕ) (now : ℕ) (desk after : Desk) (r' : AccessRequest)
    → cancel_request r user now desk ≡ ok (r', after)
    → (is_open r.status ≡ true)
      × (after.requests ≡ update_rows (set_cancelled user now) r.id desk.requests)
      × (after.next_request ≡ desk.next_request)
      × (is_unique after.requests ≡ true)
unfolding cancel_request
cancel_request-writes r user now desk after r' done = ground arith

-- Only a referential is attributed by itself.
pub grant-cases :
    (subject_type : String)
    → (grant_of (get_subject subject_type) ≡ none)
      ⊎ (grant_of (get_subject subject_type) ≡ some grant_referential)
unfolding get_subject
grant-cases subject_type = elim (Bool-cases (str_eq referential subject_type)) [
  | inl same ↦ inr (rw same refl)
  | inr other ↦ elim (Bool-cases (str_eq feature subject_type)) [
    | inl same ↦ inl (rw (other, same) refl)
    | inr none_such ↦ inl (rw (other, none_such) refl)
  ]
]

abbrev SameRequests : Desk → Desk → Type 0
SameRequests a b = (a.requests ≡ b.requests) × (a.next_request ≡ b.next_request)

grant_referential-requests :
    (tenant : Tenant) (key : String) (actor : Option ℕ) (now : ℕ) (desk after : Desk)
    → grant_referential tenant key actor now desk ≡ ok after
    → SameRequests after desk
unfolding grant_referential
grant_referential-requests tenant key actor now desk after done =
    elim (Option-cases (get_referential key desk.shelf)) [
      | inl missing ↦ ground (arith, missing)
      | inr (r, e) ↦
          elim (Result-cases (assign_referential tenant.id r actor grant_note now desk.shelf)) [
            | inl (shelf, given) ↦ ground (arith, e, given)
            | inr (why, refused) ↦ ground (arith, e, refused)
          ]
    ]

run_grant-requests :
    (g : Option Grant) (r : AccessRequest) (actor : Option ℕ) (now : ℕ) (desk after : Desk)
    (b : Bool)
    → (g ≡ none) ⊎ (g ≡ some grant_referential)
    → run_grant g r actor now desk ≡ ok (b, after)
    → SameRequests after desk
run_grant-requests g r actor now desk after b (inl e) done = ground (arith, e, done)
run_grant-requests g r actor now desk after b (inr e) done =
    elim (Result-cases (grant_referential r.tenant r.subject_key actor now desk)) [
      | inl (mid, given) ↦
          let same = grant_referential-requests r.tenant r.subject_key actor now desk mid given in
          ground (arith, e, done, given, same)
      | inr (why, refused) ↦ ground (arith, e, done, refused)
    ]

-- No grant touches the requests.
pub attribute-requests :
    (status : Status) (r : AccessRequest) (actor : Option ℕ) (now : ℕ) (desk after : Desk)
    (b : Bool)
    → attribute status r actor now desk ≡ ok (b, after)
    → (after.requests ≡ desk.requests) × (after.next_request ≡ desk.next_request)
unfolding attribute
attribute-requests granted r actor now desk after b done =
    run_grant-requests (grant_of (get_subject r.subject_type)) r actor now desk after b
      (grant-cases r.subject_type) done
attribute-requests _ r actor now desk after b done = ground (arith, done)

pub advance_request-writes :
    (r : AccessRequest) (status : Status) (response : String) (actor : Option ℕ) (now : ℕ)
    (desk after : Desk) (r' : AccessRequest) (b : Bool)
    → advance_request r status response actor now desk ≡ ok (r', b, after)
    → (is_open r.status ≡ true)
      × (is_advanceable status ≡ true)
      × (after.requests
          ≡ update_rows (set_progress status (response_or response r) actor now) r.id desk.requests)
      × (after.next_request ≡ desk.next_request)
      × (is_unique after.requests ≡ true)
unfolding advance_request
advance_request-writes r status response actor now desk after r' b done =
    elim (Result-cases (attribute status r actor now desk)) [
      | inl ((b', mid), e) ↦ ground (arith, e, attribute-requests status r actor now desk mid b' e)
      | inr (e, refused) ↦ ground (arith, refused)
    ]
