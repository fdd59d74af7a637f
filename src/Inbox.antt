-- ===== src/Inbox.antt =====
-- backend/apps/notifications/inbox.py: the notifications inside the application. The rows stand
-- newest first, the order of `Notification.Meta.ordering`.
pub mod Delivery
use rssi_as_a_service.Prelude.{
  ℕ, suc, ◌-◌, String, Bool, true, false, ◌&&◌, not, List, [], ◌∷◌, map, Option, none, some, ◌==◌,
  if◌then◌else◌, some_of, count_of, keep, length, take_text, str_eq,
}

pub data Kind : Type 0 where
  access_request_new watched_account_declared access_request_updated watched_findings_new : Kind
  committee_report_ready watch_update_published training_campaign_done training_due_passed : Kind
  training_low_participation training_measure_suggested : Kind

-- A key of the form `topic:number:stage`.
pub record DedupeKey : Type 0 where
  pub topic : String
  pub number : ℕ
  pub stage : String

pub record Notification : Type 0 where
  pub id : ℕ
  pub recipient : ℕ
  pub tenant : Option ℕ
  pub kind : Kind
  pub title : String
  pub body : String
  pub link : String
  pub dedupe_key : Option DedupeKey
  pub created_at : ℕ
  pub read_at : Option ℕ

-- What a caller says, whoever receives it.
pub record Message : Type 0 where
  pub tenant : Option ℕ
  pub kind : Kind
  pub title : String
  pub body : String
  pub link : String
  pub dedupe_key : Option DedupeKey

pub data Role : Type 0 where
  admin member : Role

abbrev pub is_admin : Role → Bool
is_admin admin = true
is_admin member = false

pub record User : Type 0 where
  pub id : ℕ
  pub is_staff : Bool
  pub is_active : Bool

pub record Membership : Type 0 where
  pub tenant : ℕ
  pub user : User
  pub role : Role

pub record Box : Type 0 where
  pub users : List User
  pub memberships : List Membership
  pub notifications : List Notification
  pub next_notification : ℕ

unfoldable pub same_key : DedupeKey → Option DedupeKey → Bool
same_key a none = false
same_key a (some b) = str_eq a.topic b.topic && (a.number == b.number && str_eq a.stage b.stage)

-- A row of this recipient under this key.
unfoldable pub is_notice_of : ℕ → DedupeKey → Notification → Bool
unfolding same_key
is_notice_of user key n = n.recipient == user && same_key key n.dedupe_key

-- `unique_notification_dedupe_par_destinataire`
unfoldable pub is_taken : ℕ → Option DedupeKey → List Notification → Bool
is_taken user none rows = false
is_taken user (some key) rows = some_of (is_notice_of user key) rows

-- `{user.pk: user for user in recipients if user is not None}`: the first place of each one.
unfoldable pub distinct : List (Option ℕ) → List ℕ
distinct [] = []
distinct (none ∷ users) = distinct users
distinct (some u ∷ users) = u ∷ keep (λ v. not (v == u)) (distinct users)

unfoldable pub new_notification : ℕ → Message → ℕ → ℕ → Notification
new_notification i m now user = record {
  id = i;
  recipient = user;
  tenant = m.tenant;
  kind = m.kind;
  title = take_text 200 m.title;
  body = m.body;
  link = take_text 200 m.link;
  dedupe_key = m.dedupe_key;
  created_at = now;
  read_at = none;
}

-- One row of `bulk_create(ignore_conflicts=bool(dedupe_key))`.
unfoldable pub create_one : Message → ℕ → ℕ → Box → Box
unfolding new_notification
create_one m now user box =
    if is_taken user m.dedupe_key box.notifications then box else record box {
      notifications = new_notification box.next_notification m now user ∷ box.notifications;
      next_notification = suc box.next_notification;
    }

unfoldable pub bulk_create : Message → ℕ → List ℕ → Box → Box
bulk_create m now [] box = box
bulk_create m now (u ∷ users) box = bulk_create m now users (create_one m now u box)

-- `filter(recipient_id__in=destinataires, dedupe_key=dedupe_key).count()`
unfoldable pub count_notices : List ℕ → DedupeKey → List Notification → ℕ
count_notices users key rows = count_of (λ n. some_of (λ u. is_notice_of u key n) users) rows

-- The number that `notify` returns: all of them without a key, those created with one.
unfoldable pub created_count : Option DedupeKey → List ℕ → Box → Box → ℕ
unfolding count_notices
created_count none users before after = length users
created_count (some key) users before after =
    count_notices users key after.notifications - count_notices users key before.notifications

unfoldable pub notify : List (Option ℕ) → Message → ℕ → Box → ℕ × Box
unfolding distinct bulk_create created_count
notify recipients m now box =
    let users = distinct recipients in
    let after = bulk_create m now users box in (created_count m.dedupe_key users box after, after)

abbrev pub to_recipient : User → Option ℕ
to_recipient u = some u.id

unfoldable pub tenant_admins : ℕ → Box → List User
tenant_admins tenant box =
    map (λ m. m.user)
      (keep (λ m. is_admin m.role && m.user.is_active)
        (keep (λ m. m.tenant == tenant) box.memberships))

unfoldable pub staff_users : Box → List User
staff_users box = keep (λ u. u.is_staff && u.is_active) box.users

unfoldable pub notify_tenant_admins : ℕ → Message → ℕ → Box → ℕ × Box
unfolding notify tenant_admins
notify_tenant_admins tenant m now box =
    notify (map to_recipient (tenant_admins tenant box)) (record m { tenant = some tenant }) now box

unfoldable pub notify_staff : Message → ℕ → Box → ℕ × Box
unfolding notify staff_users
notify_staff m now box =
    notify (map to_recipient (staff_users box)) (record m { tenant = none }) now box

abbrev pub is_member_of : ℕ → Option ℕ → List Membership → Bool
is_member_of user none memberships = true
is_member_of user (some tenant) memberships =
    some_of (λ m. m.user.id == user && m.tenant == tenant) memberships

unfoldable pub is_visible : ℕ → Box → Notification → Bool
is_visible user box n = n.recipient == user && is_member_of user n.tenant box.memberships

abbrev pub is_unread : Option ℕ → Bool
is_unread none = true
is_unread (some _) = false

unfoldable pub unread_count : ℕ → Box → ℕ
unfolding is_visible
unread_count user box =
    count_of (λ n. is_visible user box n && is_unread n.read_at) box.notifications

-- `.update(read_at=timezone.now())` on the rows that a test chooses.
unfoldable pub mark_rows : (Notification → Bool) → ℕ → List Notification → List Notification
mark_rows p now [] = []
mark_rows p now (n ∷ rows) =
    let rest = mark_rows p now rows in (if p n then record n { read_at = some now } else n) ∷ rest

abbrev pub is_marked : (Notification → Bool) → ℕ → Box → Notification → Bool
is_marked chosen user box n = is_visible user box n && (chosen n && is_unread n.read_at)

unfoldable pub mark_where : (Notification → Bool) → ℕ → ℕ → Box → ℕ × Box
unfolding mark_rows
mark_where chosen user now box = (
  count_of (is_marked chosen user box) box.notifications,
  record box { notifications = mark_rows (is_marked chosen user box) now box.notifications },
)

unfoldable pub mark_read : ℕ → List ℕ → ℕ → Box → ℕ × Box
unfolding mark_where
mark_read user ids now box = mark_where (λ n. some_of (λ i. i == n.id) ids) user now box

unfoldable pub mark_all_read : ℕ → ℕ → Box → ℕ × Box
unfolding mark_where
mark_all_read user now box = mark_where (λ n. true) user now box
