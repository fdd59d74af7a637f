-- ===== src/AccessRequests/Services.antt =====
-- backend/apps/access_requests/services.py: every operation returns the tables that it leaves. The
-- check of `create_request` and its write are two moments: `seen` is what the check read, the last
-- argument is what the write finds.
use rssi_as_a_service.Prelude.{
  ℕ, suc, String, Bool, true, false, ◌&&◌, not, List, [], ◌∷◌, Option, none, some, ◌==◌, str_eq,
  if◌then◌else◌, some_of, keep, count_of, Result, ok, err, first, guard, or_raise, ◌>>=◌, ◌>>◌,
  take_text, append,
}
use rssi_as_a_service.Billing.Model.{Tenant}
use rssi_as_a_service.Inbox.{
  Message, Box, access_request_new, access_request_updated, notify, notify_staff,
}
use rssi_as_a_service.AccessRequests.Model.{
  AccessRequest, Desk, AccessRequestError, unknown_subject_type, unknown_subject, already_held,
  duplicate_request, already_handled, unknown_stage, Status, pending, granted, declined, cancelled,
  is_open, is_pending, is_unique, save_request, slug, display,
}
use rssi_as_a_service.AccessRequests.Subjects.{Subject, Grant, get_subject}

-- What a caller asks for.
pub record Ask : Type 0 where
  pub tenant : Tenant
  pub user : Option ℕ
  pub subject_type : String
  pub subject_key : String
  pub reason : String

-- An open request of this client for this subject.
abbrev pub is_asked : Ask → AccessRequest → Bool
is_asked a r =
    is_open r.status
    && (r.tenant.id == a.tenant.id
        && (str_eq r.subject_type a.subject_type && str_eq r.subject_key a.subject_key))

unfoldable pub new_request : ℕ → Ask → String → ℕ → AccessRequest
new_request i a label now = record {
  id = i;
  tenant = a.tenant;
  subject_type = a.subject_type;
  subject_key = a.subject_key;
  subject_label = label;
  reason = a.reason;
  requested_by = a.user;
  created_at = now;
  status = pending;
  response = "";
  handled_at = none;
  handled_by = none;
}

-- The three refusals in their order, and else the label.
unfoldable pub check_request : Ask → Desk → Result AccessRequestError String
check_request a seen = do
  subject ← or_raise (get_subject a.subject_type) unknown_subject_type
  label ← or_raise (subject.describe a.subject_key seen) unknown_subject
  guard (not (subject.is_held a.tenant a.subject_key seen)) (already_held label)
  guard (not (some_of (is_asked a) seen.requests)) (duplicate_request label)
  ok label

unfoldable pub new_request_message : Ask → String → ℕ → Message
new_request_message a label i = record {
  tenant = none;
  kind = access_request_new;
  title = append "Nouvelle demande de " (append a.tenant.name (append " : " label));
  body = take_text 500 a.reason;
  link = "/admin/plateforme?onglet=requests";
  dedupe_key = some (record { topic = "demande"; number = i; stage = "nouvelle" });
}

-- The row inserted, its key drawn, and the staff told.
abbrev pub inserted : Ask → String → ℕ → Desk → Desk
inserted a label now desk = record desk {
  requests = new_request desk.next_request a label now ∷ desk.requests;
  next_request = suc desk.next_request;
  box = (notify_staff (new_request_message a label desk.next_request) now desk.box).1;
}

unfoldable pub insert_request :
    Ask → String → ℕ → Desk → Result AccessRequestError (AccessRequest × Desk)
insert_request a label now desk =
    let r = new_request desk.next_request a label now in
    if is_unique (r ∷ desk.requests)
    then ok (r, inserted a label now desk)
    else err (duplicate_request label)

unfoldable pub create_request :
    Desk → Ask → ℕ → Desk → Result AccessRequestError (AccessRequest × Desk)
unfolding check_request insert_request
create_request seen a now desk = do label ← check_request a seen; insert_request a label now desk

unfoldable pub open_count : Desk → ℕ
open_count desk = count_of (λ r. is_open r.status) desk.requests

unfoldable pub pending_count : Desk → ℕ
pending_count desk = count_of (λ r. is_pending r.status) desk.requests

abbrev pub is_of_tenant : Option ℕ → AccessRequest → Bool
is_of_tenant none r = true
is_of_tenant (some tenant) r = r.tenant.id == tenant

unfoldable pub get_request : ℕ → Option ℕ → Desk → Option AccessRequest
get_request i tenant desk = first (keep (λ r. is_of_tenant tenant r && r.id == i) desk.requests)

-- `filter(status=…)`, left out where no status is given.
abbrev pub is_at : Option Status → AccessRequest → Bool
is_at none r = true
is_at (some status) r = str_eq (slug r.status) (slug status)

unfoldable pub list_requests : ℕ → Option Status → Desk → List AccessRequest
list_requests tenant status desk =
    keep (is_at status) (keep (λ r. r.tenant.id == tenant) desk.requests)

abbrev pub is_about : Option String → AccessRequest → Bool
is_about none r = true
is_about (some subject_type) r = str_eq r.subject_type subject_type

unfoldable pub list_all_requests : Option Status → Option String → Desk → List AccessRequest
list_all_requests status subject_type desk =
    keep (is_about subject_type) (keep (is_at status) desk.requests)

unfoldable pub set_cancelled : Option ℕ → ℕ → AccessRequest → AccessRequest
set_cancelled user now r = record r { status = cancelled; handled_at = some now; handled_by = user }

unfoldable pub cancel_request :
    AccessRequest → Option ℕ → ℕ → Desk → Result AccessRequestError (AccessRequest × Desk)
unfolding set_cancelled
cancel_request r user now desk = do
  guard (is_open r.status) already_handled
  after ← save_request (set_cancelled user now) r.id desk
  ok (set_cancelled user now r, after)

-- `ADVANCEABLE_STATUSES`
abbrev pub is_advanceable : Status → Bool
is_advanceable pending = false
is_advanceable cancelled = false
is_advanceable _ = true

-- `TERMINAL_STATUSES`
abbrev pub is_terminal : Status → Bool
is_terminal granted = true
is_terminal declined = true
is_terminal cancelled = true
is_terminal _ = false

-- `subject is not None and subject.grant is not None`
abbrev pub grant_of : Option Subject → Option Grant
grant_of none = none
grant_of (some s) = s.grant

abbrev pub run_grant :
    Option Grant → AccessRequest → Option ℕ → ℕ → Desk → Result AccessRequestError (Bool × Desk)
run_grant none r actor now desk = ok (false, desk)
run_grant (some grant) r actor now desk = do
  after ← grant r.tenant r.subject_key actor now desk
  ok (true, after)

-- What a step towards a status attributes, and whether it was called on to.
unfoldable pub attribute :
    Status → AccessRequest → Option ℕ → ℕ → Desk → Result AccessRequestError (Bool × Desk)
attribute granted r actor now desk =
    run_grant (grant_of (get_subject r.subject_type)) r actor now desk
attribute _ r actor now desk = ok (false, desk)

-- The fields that the step saves, on the row: the response is that of the object in memory.
unfoldable pub set_progress : Status → String → Option ℕ → ℕ → AccessRequest → AccessRequest
set_progress status response actor now r =
    let moved = record r { status = status; response = response } in
    if is_terminal status then record moved { handled_at = some now; handled_by = actor } else moved

abbrev pub response_or : String → AccessRequest → String
response_or response r = if str_eq response "" then r.response else response

unfoldable pub progress_message : AccessRequest → Message
progress_message r = record {
  tenant = some r.tenant.id;
  kind = access_request_updated;
  title = append "Votre demande « " (append r.subject_label (append " » : " (display r.status)));
  body = r.response;
  link = "/mes-demandes";
  dedupe_key = some (record { topic = "demande"; number = r.id; stage = slug r.status });
}

-- The requester alone is told, where the account still exists.
abbrev pub tell_requester : Option ℕ → AccessRequest → ℕ → Box → Box
tell_requester none r now box = box
tell_requester (some user) r now box = (notify (some user ∷ []) (progress_message r) now box).1

abbrev pub told : AccessRequest → ℕ → Desk → Desk
told r now desk = record desk { box = tell_requester r.requested_by r now desk.box }

unfoldable pub advance_request :
    AccessRequest
    → Status
    → String
    → Option ℕ
    → ℕ
    → Desk
    → Result AccessRequestError (AccessRequest × Bool × Desk)
unfolding attribute set_progress
advance_request r status response actor now desk = do
  guard (is_open r.status) already_handled
  guard (is_advanceable status) unknown_stage
  attributed ← attribute status r actor now desk
  let write = set_progress status (response_or response r) actor now
  after ← save_request write r.id attributed.1
  ok (write r, attributed.0, told (write r) now after)

unfoldable pub handle_request :
    AccessRequest
    → Bool
    → String
    → Option ℕ
    → ℕ
    → Desk
    → Result AccessRequestError (AccessRequest × Bool × Desk)
unfolding advance_request
handle_request r is_granted response actor now desk =
    advance_request r (if is_granted then granted else declined) response actor now desk
