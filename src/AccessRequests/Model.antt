-- ===== src/AccessRequests/Model.antt =====
-- backend/apps/access_requests/models.py, and the table with its partial unique constraint. The rows
-- stand newest first.
use rssi_as_a_service.Prelude.{
  ℕ, String, Bool, true, false, ◌&&◌, not, List, [], ◌∷◌, Option, none, some, ◌==◌, str_eq,
  if◌then◌else◌, some_of, Result, ok, err,
}
use rssi_as_a_service.Billing.Model.{Tenant, Db}
use rssi_as_a_service.Assessments.{Shelf, AssignmentError}
use rssi_as_a_service.Inbox.{Box}

pub data Status : Type 0 where
  pending contacted proposal granted declined cancelled : Status

pub record AccessRequest : Type 0 where
  pub id : ℕ
  pub tenant : Tenant
  pub subject_type : String
  pub subject_key : String
  pub subject_label : String
  pub reason : String
  pub requested_by : Option ℕ
  pub created_at : ℕ
  pub status : Status
  pub response : String
  pub handled_at : Option ℕ
  pub handled_by : Option ℕ

-- The tables that a request reads or writes.
pub record Desk : Type 0 where
  pub billing : Db
  pub shelf : Shelf
  pub box : Box
  pub requests : List AccessRequest
  pub next_request : ℕ

pub data AccessRequestError : Type 0 where
  unknown_subject_type unknown_subject : AccessRequestError
  already_held duplicate_request : (label : String) → AccessRequestError
  already_handled unknown_stage : AccessRequestError
  assignment_refused : AssignmentError → AccessRequestError
  integrity_error : AccessRequestError

-- `OPEN_STATUSES`
abbrev pub is_open : Status → Bool
is_open pending = true
is_open contacted = true
is_open proposal = true
is_open _ = false

abbrev pub is_pending : Status → Bool
is_pending pending = true
is_pending _ = false

-- Two open requests of one client for one subject.
unfoldable pub clashes : AccessRequest → AccessRequest → Bool
clashes a b =
    (is_open a.status && is_open b.status)
    && (a.tenant.id == b.tenant.id
        && (str_eq a.subject_type b.subject_type && str_eq a.subject_key b.subject_key))

-- `unique_open_access_request`, on the table that a write would leave.
unfoldable pub is_unique : List AccessRequest → Bool
unfolding clashes
is_unique [] = true
is_unique (r ∷ rows) = not (some_of (clashes r) rows) && is_unique rows

unfoldable pub find_request : ℕ → List AccessRequest → Option AccessRequest
find_request i [] = none
find_request i (r ∷ rows) = let rest = find_request i rows in if r.id == i then some r else rest

unfoldable pub update_rows :
    (AccessRequest → AccessRequest) → ℕ → List AccessRequest → List AccessRequest
update_rows f i [] = []
update_rows f i (r ∷ rows) =
    let rest = update_rows f i rows in (if r.id == i then f r else r) ∷ rest

-- A write, refused where it breaks the constraint.
abbrev pub write_rows : List AccessRequest → Desk → Result AccessRequestError Desk
write_rows rows desk =
    if is_unique rows then ok (record desk { requests = rows }) else err integrity_error

abbrev pub save_request :
    (AccessRequest → AccessRequest) → ℕ → Desk → Result AccessRequestError Desk
save_request f i desk = write_rows (update_rows f i desk.requests) desk

abbrev pub slug : Status → String
slug pending = "pending"
slug contacted = "contacted"
slug proposal = "proposal"
slug granted = "granted"
slug declined = "declined"
slug cancelled = "cancelled"

-- `get_status_display().lower()`
abbrev pub display : Status → String
display pending = "nouvelle"
display contacted = "client contacté"
display proposal = "proposition envoyée"
display granted = "accordée"
display declined = "refusée"
display cancelled = "annulée par le client"
