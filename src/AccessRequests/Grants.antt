-- ===== src/AccessRequests/Grants.antt =====
-- backend/apps/access_requests and backend/apps/assessments: what « accordée » gives.
use rssi_as_a_service.Prelude.{
  ℕ, ◌≡◌, refl, sym, subst, String, Bool, true, false, ◌&&◌, List, [], ◌∷◌, Option, none, some,
  arith, some_of, Bool-cases, Option-cases, Result-cases, ok, err, inl, inr, ◌⊎◌, ==-refl,
}
use rssi_as_a_service.Assessments.{
  Referential, ReferentialAssignment, Shelf, get_referential, is_granted, is_of, is_standing,
  reassign, assign_referential, is_owned_elsewhere, new_row, owned_by_another,
}
use rssi_as_a_service.Billing.Model.{Tenant}
use rssi_as_a_service.AccessRequests.Model.{AccessRequest, Desk, granted}
use rssi_as_a_service.AccessRequests.Subjects.{
  referential, get_subject, grant_referential, grant_note,
}
use rssi_as_a_service.AccessRequests.Services.{attribute, grant_of, advance_request}

reassign-stands :
    (tenant i : ℕ) (note : String) (rows : List ReferentialAssignment)
    → some_of (is_of tenant i) rows ≡ true
    → some_of (λ a. is_of tenant i a && is_standing a.revoked_at) (reassign tenant i note rows)
      ≡ true
unfolding some_of reassign
reassign-stands tenant i note [] h = cc
reassign-stands tenant i note (a ∷ rows) h = ground (arith, reassign-stands tenant i note rows)

-- The two outcomes of an attribution.
abbrev pub Assigned : ℕ → Referential → Option ℕ → String → ℕ → Shelf → Type 0
Assigned tenant r granted_by note now shelf =
    ((is_owned_elsewhere r.owner_tenant tenant ≡ true)
      × (assign_referential tenant r granted_by note now shelf ≡ err (owned_by_another r.name)))
    ⊎ ((is_owned_elsewhere r.owner_tenant tenant ≡ false)
        × (after : Shelf) × (assign_referential tenant r granted_by note now shelf ≡ ok after)
        × (is_granted tenant r after ≡ true))

-- Of the referential that a key names on a shelf, what the shelf after an attribution gives.
abbrev pub Given : Tenant → String → Shelf → Shelf → Type 0
Given tenant key before after =
    ((get_referential key before ≡ none) × (after ≡ before))
    ⊎ ((r : Referential) × (get_referential key before ≡ some r)
        × (is_granted tenant.id r after ≡ true))

-- An attribution that is not refused stands; a referential of another client is refused, and none
-- else.
pub assign_referential_lem :
    (tenant : ℕ) (r : Referential) (granted_by : Option ℕ) (note : String) (now : ℕ) (shelf : Shelf)
    → Assigned tenant r granted_by note now shelf
unfolding assign_referential is_granted
assign_referential_lem tenant r granted_by note now shelf =
    elim (Bool-cases (is_owned_elsewhere r.owner_tenant tenant)) [
      | inl elsewhere ↦ inl (elsewhere, rw elsewhere refl)
      | inr allowed ↦ elim (Bool-cases (some_of (is_of tenant r.id) shelf.assignments)) [
        | inl known ↦ inr (
          allowed,
          record shelf { assignments = reassign tenant r.id note shelf.assignments },
          rw (allowed, known) refl,
          reassign-stands tenant r.id note shelf.assignments known,
        )
        | inr new ↦ inr (
          allowed,
          new_row tenant r granted_by note now shelf,
          rw (allowed, new) refl,
          unfold some_of in (rw (==-refl tenant, ==-refl r.id) refl),
        )
      ]
    ]

referential-grant :
    (subject_type : String)
    → subject_type ≡ referential
    → grant_of (get_subject subject_type) ≡ some grant_referential
unfolding get_subject
referential-grant subject_type e =
    subst (λ x. grant_of (get_subject x) ≡ some grant_referential) (sym e) refl

-- What the attribution of a referential leaves, where it is not refused.
grant_referential_lem :
    (tenant : Tenant) (key : String) (actor : Option ℕ) (now : ℕ) (desk after : Desk)
    → grant_referential tenant key actor now desk ≡ ok after
    → Given tenant key desk.shelf after.shelf
unfolding grant_referential
grant_referential_lem tenant key actor now desk after done =
    elim (Option-cases (get_referential key desk.shelf)) [
      | inl missing ↦ inl (missing, ground (arith, missing))
      | inr (r, e) ↦ elim (assign_referential_lem tenant.id r actor grant_note now desk.shelf) [
        | inl (_, refused) ↦ ground (arith, e, refused)
        | inr (_, shelf, given, stands) ↦
            inr
              (r, e, subst (λ s. is_granted tenant.id r s ≡ true) (ground (arith, e, given)) stands)
      ]
    ]

-- A step to « accordée » on a request for a referential, where it is not refused, answers that it
-- has attributed; either the client then holds the referential, or the catalogue has none of this
-- slug and nothing was attributed.
pub advance_request-attributes :
    (r : AccessRequest) (response : String) (actor : Option ℕ) (now : ℕ) (desk after : Desk)
    (r' : AccessRequest) (b : Bool)
    → r.subject_type ≡ referential
    → advance_request r granted response actor now desk ≡ ok (r', b, after)
    → (b ≡ true) × Given r.tenant r.subject_key desk.shelf after.shelf
unfolding advance_request attribute
advance_request-attributes r response actor now desk after r' b e done =
    let g = referential-grant r.subject_type e in
    elim (Result-cases (grant_referential r.tenant r.subject_key actor now desk)) [
      | inl (mid, given) ↦
          let shelf : after.shelf ≡ mid.shelf = ground (arith, g, given, done) in
          (
            ground (arith, g, given, done),
            subst (λ s. Given r.tenant r.subject_key desk.shelf s) (sym shelf)
                (grant_referential_lem r.tenant r.subject_key actor now desk mid given),
          )
      | inr (why, refused) ↦ ground (arith, g, refused, done)
    ]
