-- ===== src/Tests/Requests.antt =====
-- Concrete runs of the requests and of the notifications.
use rssi_as_a_service.Prelude.{keep, some_of, ◌≡◌, refl, true, [], ◌∷◌, none, some, ok, err}
use rssi_as_a_service.Billing.Model.{Tenant}
use rssi_as_a_service.Assessments.{Referential, get_referential, is_granted, assign_referential}
use rssi_as_a_service.Inbox.{User, Message, access_request_new, notify}
use rssi_as_a_service.Inbox.Delivery.{notify-idempotent}
use rssi_as_a_service.AccessRequests.Model.{
  AccessRequest, Desk, contacted, granted, is_open, is_unique, find_request, update_rows,
}
use rssi_as_a_service.AccessRequests.Subjects.{
  referential, get_subject, describe_referential, referential_is_held, grant_referential,
}
use rssi_as_a_service.AccessRequests.Services.{
  attribute, Ask, new_request, create_request, cancel_request, advance_request, set_cancelled,
  check_request, insert_request, set_progress,
}
use rssi_as_a_service.AccessRequests.Table.{IsKeyed}
use rssi_as_a_service.AccessRequests.Follow.{IsSound, RowsFollow}
use rssi_as_a_service.AccessRequests.Reach.{asks, withdraws, here, next, Reach-RowsFollow}
use rssi_as_a_service.AccessRequests.Answers.{
  Deposit, Answered, create_request_lem, advance_request_lem,
}
use rssi_as_a_service.AccessRequests.Grants.{
  Assigned, Given, assign_referential_lem, advance_request-attributes,
}
use rssi_as_a_service.AccessRequests.Stale.{Reopened, advance_request-reopens}
use rssi_as_a_service.Tests.Catalogue.{office}

abbrev acme : Tenant
acme = record { id = 7; name = "Acme" }

abbrev guide : Referential
guide = record {
  id = 1;
  slug = "guide";
  name = "Guide d'hygiène";
  owner_tenant = none;
  is_active = true;
}

abbrev staff : User
staff = record { id = 90; is_staff = true; is_active = true }

abbrev desk : Desk
desk = record {
  billing = office;
  shelf = record { referentials = guide ∷ []; assignments = [] };
  box = record { users = staff ∷ []; memberships = []; notifications = []; next_notification = 0 };
  requests = [];
  next_request = 0;
}

abbrev ask : Ask
ask = record {
  tenant = acme;
  user = some 4;
  subject_type = referential;
  subject_key = "guide";
  reason = "";
}

abbrev asked : AccessRequest
asked = new_request 0 ask "Guide d'hygiène" 100

abbrev opened : Desk
opened = elim (create_request desk ask 100 desk) [ ok (_, d) ↦ d | err _ ↦ desk ]

abbrev withdrawn : Desk
withdrawn = elim (cancel_request asked (some 4) 200 opened) [ ok (_, d) ↦ d | err _ ↦ opened ]

abbrev told_once : Desk
told_once = elim (advance_request asked contacted "" (some 90) 150 opened) [
  | ok (_, _, d) ↦ d
  | err _ ↦ opened
]

abbrev given : Desk
given = elim (advance_request asked granted "" (some 90) 300 opened) [
  | ok (_, _, d) ↦ d
  | err _ ↦ opened
]

desk-IsSound : IsSound desk
unfolding is_unique
desk-IsSound = record { keyed = tt; below = tt; unique = refl; decided = tt }

ask_passes : check_request ask desk ≡ ok "Guide d'hygiène"
unfolding check_request get_subject describe_referential get_referential keep referential_is_held
    is_granted some_of
ask_passes = refl

asks_done : create_request desk ask 100 desk ≡ ok (asked, opened)
unfolding check_request get_subject describe_referential get_referential keep referential_is_held
    is_granted some_of create_request insert_request new_request is_unique find_request
asks_done = refl

asked_found : find_request asked.id opened.requests ≡ some asked
unfolding check_request get_subject describe_referential get_referential keep referential_is_held
    is_granted some_of create_request insert_request new_request is_unique find_request
asked_found = refl

withdraws_done :
    cancel_request asked (some 4) 200 opened ≡ ok (set_cancelled (some 4) 200 asked, withdrawn)
unfolding check_request get_subject describe_referential get_referential keep referential_is_held
    is_granted some_of create_request insert_request new_request is_unique find_request
    cancel_request update_rows set_cancelled
withdraws_done = refl

opened-IsKeyed : IsKeyed opened.requests
unfolding check_request get_subject describe_referential get_referential keep referential_is_held
    is_granted some_of create_request insert_request new_request is_unique find_request
opened-IsKeyed = (refl, tt)

opened_unique : is_unique opened.requests ≡ true
unfolding check_request get_subject describe_referential get_referential keep referential_is_held
    is_granted some_of create_request insert_request new_request is_unique find_request
opened_unique = refl

-- A deposit, then its withdrawal.
Reach-RowsFollow_example : IsSound withdrawn × RowsFollow desk.requests withdrawn.requests
Reach-RowsFollow_example = Reach-RowsFollow desk-IsSound (
    next (next here (asks desk ask 100 asked asks_done))
      (withdraws asked (set_cancelled (some 4) 200 asked) (some 4) 200 asked_found withdraws_done))

-- Two deposits at once: the second one's check had read the table without the first.
create_request_lem_example : Deposit desk ask "Guide d'hygiène" 101 opened
create_request_lem_example =
    create_request_lem desk ask "Guide d'hygiène" 101 opened ask_passes opened_unique

asked_open : is_open asked.status ≡ true
unfolding new_request
asked_open = refl

advance_request_lem_example : Answered asked contacted "" (some 90) 150 opened
advance_request_lem_example =
    advance_request_lem asked contacted "" (some 90) 150 opened opened-IsKeyed opened_unique
      asked_found asked_open refl

assign_referential_lem_example : Assigned 7 guide (some 90) "" 100 desk.shelf
assign_referential_lem_example = assign_referential_lem 7 guide (some 90) "" 100 desk.shelf

grants_done :
    advance_request asked granted "" (some 90) 300 opened
    ≡ ok (set_progress granted "" (some 90) 300 asked, true, given)
unfolding check_request get_subject describe_referential get_referential keep referential_is_held
    is_granted some_of create_request insert_request new_request is_unique find_request
    advance_request attribute update_rows grant_referential assign_referential set_progress
grants_done = refl

asked_type : asked.subject_type ≡ referential
unfolding new_request
asked_type = refl

advance_request-attributes_example :
    (true ≡ true) × Given asked.tenant asked.subject_key opened.shelf given.shelf
advance_request-attributes_example =
    advance_request-attributes asked "" (some 90) 300 opened given
      (set_progress granted "" (some 90) 300 asked) true asked_type grants_done

-- The client withdraws at 200, the administrator steps at 250 on the copy of before.
advance_request-reopens_example : Reopened asked "" (some 90) 200 250 withdrawn
advance_request-reopens_example =
    advance_request-reopens asked (set_cancelled (some 4) 200 asked) (some 4) (some 90) 200 250 ""
      opened withdrawn opened-IsKeyed opened_unique asked_found withdraws_done

abbrev notice : Message
notice = record {
  tenant = none;
  kind = access_request_new;
  title = "Nouvelle demande";
  body = "";
  link = "";
  dedupe_key = some (record { topic = "demande"; number = 0; stage = "nouvelle" });
}

notify-idempotent_example :
    notify (some 4 ∷ some 90 ∷ []) notice 20 (notify (some 4 ∷ some 90 ∷ []) notice 10 desk.box).1
    ≡ (0, (notify (some 4 ∷ some 90 ∷ []) notice 10 desk.box).1)
notify-idempotent_example =
    notify-idempotent (some 4 ∷ some 90 ∷ []) notice notice 10 20
      (record { topic = "demande"; number = 0; stage = "nouvelle" }) desk.box refl refl
