-- ===== src/AccessRequests/Answers.antt =====
-- backend/apps/access_requests/services.py: who gets an answer, and what a grant gives.
use rssi_as_a_service.Prelude.{
  ℕ, suc, ◌≡◌, refl, String, Bool, true, false, List, [], ◌∷◌, Option, some, arith, some_of,
  count_of, Bool-cases, Result-cases, ok, err, inl, inr, ◌⊎◌, eq_iff,
}
use rssi_as_a_service.AccessRequests.Model.{
  AccessRequest, Desk, AccessRequestError, duplicate_request, Status, is_open, is_unique, clashes,
  find_request, update_rows,
}
use rssi_as_a_service.AccessRequests.Services.{
  Ask, is_asked, new_request, check_request, insert_request, create_request, inserted, told,
  open_count, is_advanceable, attribute, set_progress, response_or, advance_request,
}
use rssi_as_a_service.AccessRequests.Table.{IsKeyed, find-update}
use rssi_as_a_service.AccessRequests.Constraint.{update-is_unique}
use rssi_as_a_service.AccessRequests.Outcomes.{set_progress-KeepsSubject, attribute-requests}

-- The constraint sees in a new row what the check looks for.
asked-clashes :
    (i now : ℕ) (a : Ask) (label : String) (rows : List AccessRequest)
    → some_of (clashes (new_request i a label now)) rows ≡ some_of (is_asked a) rows
unfolding some_of clashes new_request
asked-clashes i now a label [] = refl
asked-clashes i now a label (q ∷ rows) = rw (asked-clashes i now a label rows) (
    ground (
      arith,
      eq_iff a.subject_type q.subject_type,
      eq_iff q.subject_type a.subject_type,
      eq_iff a.subject_key q.subject_key,
      eq_iff q.subject_key a.subject_key,
    ))

-- The two outcomes of a deposit whose check has passed.
abbrev pub Deposit : Desk → Ask → String → ℕ → Desk → Type 0
Deposit seen a label now desk =
    ((some_of (is_asked a) desk.requests ≡ true)
      × (create_request seen a now desk ≡ err (duplicate_request label)))
    ⊎ ((some_of (is_asked a) desk.requests ≡ false)
        × (after : Desk) × (create_request seen a now desk
            ≡ ok (new_request desk.next_request a label now, after))
        × (open_count after ≡ suc (open_count desk)))

-- Where the check has passed on what it read, on a table with no two open requests of one client for
-- one subject: the deposit is refused as a duplicate when the table that the write finds has an open
-- request for the subject, and else one more request is open.
pub create_request_lem :
    (seen : Desk) (a : Ask) (label : String) (now : ℕ) (desk : Desk)
    → check_request a seen ≡ ok label
    → is_unique desk.requests ≡ true
    → Deposit seen a label now desk
unfolding create_request insert_request is_unique open_count count_of
create_request_lem seen a label now desk passed u =
    let alike = asked-clashes desk.next_request now a label desk.requests in
    elim (Bool-cases (some_of (is_asked a) desk.requests)) [
      | inl asked ↦ inl (asked, rw (passed, alike, asked) refl)
      | inr free ↦ inr (
        free,
        inserted a label now desk,
        rw (passed, alike, free, u) refl,
        unfold new_request in refl,
      )
    ]

-- A step is recorded, or the grant refuses it.
abbrev pub Answered : AccessRequest → Status → String → Option ℕ → ℕ → Desk → Type 0
Answered r status response actor now desk =
    ((r' : AccessRequest) × (b : Bool) × (after : Desk) × (advance_request r status response actor
          now desk
        ≡ ok (r', b, after))
      × (r'.status ≡ status)
      × (find_request r.id after.requests ≡ some r'))
    ⊎ ((e : AccessRequestError) × (attribute status r actor now desk ≡ err e)
        × (advance_request r status response actor now desk ≡ err e))

-- A step towards an advanceable status, on an open request as it is loaded, is answered: it is
-- recorded with its new status, or the grant's own refusal comes out. No other error does.
pub advance_request_lem :
    (r : AccessRequest) (status : Status) (response : String) (actor : Option ℕ) (now : ℕ)
    (desk : Desk)
    → IsKeyed desk.requests
    → is_unique desk.requests ≡ true
    → find_request r.id desk.requests ≡ some r
    → is_open r.status ≡ true
    → is_advanceable status ≡ true
    → Answered r status response actor now desk
unfolding advance_request
advance_request_lem r status response actor now desk k u l o a =
    let write = set_progress status (response_or response r) actor now in
    let keeps = set_progress-KeepsSubject status (response_or response r) actor now in
    elim (Result-cases (attribute status r actor now desk)) [
      | inl ((b, mid), e) ↦
          let same = (attribute-requests status r actor now desk mid b e).0 in
          let kept = update-is_unique write keeps r.id r desk.requests k l o u in
          let found = find-update write keeps r.id r desk.requests l in
          inl (
            write r,
            b,
            told (write r) now (record mid { requests = update_rows write r.id mid.requests }),
            rw (o, a, e, same, kept) refl,
            unfold set_progress in (ground arith),
            rw same found,
          )
      | inr (e, refused) ↦ inr (e, refused, rw (o, a, refused) refl)
    ]
