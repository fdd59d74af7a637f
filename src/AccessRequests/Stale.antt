-- ===== src/AccessRequests/Stale.antt =====
-- backend/apps/access_requests/services.py: two writes of one request that both loaded it before
-- either wrote. No row is locked or read again between the check of `is_open` and the save.
use rssi_as_a_service.Prelude.{
  ℕ, ◌≡◌, refl, String, true, false, List, [], ◌∷◌, Option, some, ◌==◌, ok, Bool-cases, inl, inr,
}
use rssi_as_a_service.AccessRequests.Model.{
  AccessRequest, Desk, contacted, is_open, is_unique, find_request, update_rows,
}
use rssi_as_a_service.AccessRequests.Services.{
  set_cancelled, cancel_request, set_progress, response_or, advance_request, attribute, told,
}
use rssi_as_a_service.AccessRequests.Table.{IsKeyed, KeepsSubject, find-update}
use rssi_as_a_service.AccessRequests.Constraint.{update-is_unique}
use rssi_as_a_service.AccessRequests.Outcomes.{cancel_request-writes}

-- Two writes on one row are one.
update-update :
    (f g : AccessRequest → AccessRequest) (i : ℕ) (rows : List AccessRequest)
    → KeepsSubject f
    → update_rows g i (update_rows f i rows) ≡ update_rows (λ r. g (f r)) i rows
unfolding update_rows
update-update f g i [] k = refl
update-update f g i (r ∷ rows) k = elim (Bool-cases (r.id == i)) [
  | inl here ↦ rw (here, (k r).0, here, update-update f g i rows k) refl
  | inr there ↦ rw (there, there, update-update f g i rows k) refl
]

abbrev reopen : String → Option ℕ → ℕ → Option ℕ → ℕ → AccessRequest → AccessRequest
reopen said actor later user now r =
    set_progress contacted said actor later (set_cancelled user now r)

reopen-KeepsSubject :
    (said : String) (actor : Option ℕ) (later : ℕ) (user : Option ℕ) (now : ℕ)
    → KeepsSubject (reopen said actor later user now)
unfolding set_progress set_cancelled
reopen-KeepsSubject said actor later user now r = (refl, refl, refl, refl)

-- A step on the copy loaded before succeeds, and opens the row that was concluded at `now`.
abbrev pub Reopened : AccessRequest → String → Option ℕ → ℕ → ℕ → Desk → Type 0
Reopened r response actor now later mid =
    (r' : AccessRequest) × (after : Desk) × (row : AccessRequest) × (advance_request r contacted
        response actor later mid
      ≡ ok (r', false, after))
    × (find_request r.id after.requests ≡ some row)
    × (is_open row.status ≡ true)
    × (row.handled_at ≡ some now)

-- Where a client withdraws an open request and an administrator, who had loaded it before, then marks
-- the client as contacted, the step succeeds: the withdrawn request is open again, with the date of
-- its withdrawal still on it.
pub advance_request-reopens :
    (r c : AccessRequest) (user actor : Option ℕ) (now later : ℕ) (response : String)
    (desk mid : Desk)
    → IsKeyed desk.requests
    → is_unique desk.requests ≡ true
    → find_request r.id desk.requests ≡ some r
    → cancel_request r user now desk ≡ ok (c, mid)
    → Reopened r response actor now later mid
unfolding advance_request attribute
advance_request-reopens r c user actor now later response desk mid k u l done =
    let (o, rows, _, _) = cancel_request-writes r user now desk mid c done in
    let said = response_or response r in
    let write = set_progress contacted said actor later in
    let both = reopen said actor later user now in
    let one : update_rows write r.id mid.requests ≡ update_rows both r.id desk.requests = rw rows (
      update-update (set_cancelled user now) write r.id desk.requests
        (λ x. unfold set_cancelled in (refl, refl, refl, refl))) in
    let keeps = reopen-KeepsSubject said actor later user now in
    let kept = update-is_unique both keeps r.id r desk.requests k l o u in
    let found = find-update both keeps r.id r desk.requests l in
    (
      write r,
      told (write r) later (record mid { requests = update_rows write r.id mid.requests }),
      both r,
      rw (o, one, kept) refl,
      rw one found,
      unfold set_progress set_cancelled in refl,
      unfold set_progress set_cancelled in refl,
    )
