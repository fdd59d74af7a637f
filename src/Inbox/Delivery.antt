-- ===== src/Inbox/Delivery.antt =====
-- backend/apps/notifications/inbox.py: what a second delivery of one event does, and what marking
-- as read leaves unread.
use rssi_as_a_service.Prelude.{
  ℕ, ◌-◌, ◌≡◌, refl, ◌≢◌, Bool, true, false, ◌&&◌, List, [], ◌∷◌, Option, none, some, arith, eq_iff,
  All, some_of, count_of, Bool-cases, inl, inr,
}
use rssi_as_a_service.Inbox.{
  DedupeKey, Notification, Message, Box, same_key, is_notice_of, is_taken, distinct,
  new_notification, create_one, bulk_create, count_notices, created_count, notify, is_visible,
  is_unread, is_marked, unread_count, mark_rows, mark_where, mark_all_read,
}

same_key_refl : (k : DedupeKey) → same_key k (some k) ≡ true
unfolding same_key
same_key_refl k = ground (arith, eq_iff k.topic k.topic, eq_iff k.stage k.stage)

-- Who has a row under a key keeps it.
create_one-keeps :
    (m : Message) (now u v : ℕ) (key : Option DedupeKey) (box : Box)
    → is_taken v key box.notifications ≡ true
    → is_taken v key (create_one m now u box).notifications ≡ true
unfolding create_one is_taken some_of
create_one-keeps m now u v none box h = cc
create_one-keeps m now u v (some key) box h = ground (arith, h)

create_one-takes :
    (m : Message) (now u : ℕ) (key : DedupeKey) (box : Box)
    → m.dedupe_key ≡ some key
    → is_taken u (some key) (create_one m now u box).notifications ≡ true
unfolding create_one is_taken some_of new_notification is_notice_of
create_one-takes m now u key box e = elim (Bool-cases (is_taken u (some key) box.notifications)) [
  | inl taken ↦ rw (e, taken) taken
  | inr free ↦ rw (e, free) (ground (arith, same_key_refl key))
]

bulk_create-keeps :
    (m : Message) (now v : ℕ) (key : Option DedupeKey) (users : List ℕ) (box : Box)
    → is_taken v key box.notifications ≡ true
    → is_taken v key (bulk_create m now users box).notifications ≡ true
unfolding bulk_create
bulk_create-keeps m now v key [] box h = h
bulk_create-keeps m now v key (u ∷ users) box h =
    bulk_create-keeps m now v key users (create_one m now u box)
      (create_one-keeps m now u v key box h)

bulk_create-takes :
    (m : Message) (now : ℕ) (key : DedupeKey) (users : List ℕ) (box : Box)
    → m.dedupe_key ≡ some key
    → All (λ u. is_taken u (some key) (bulk_create m now users box).notifications ≡ true) users
unfolding bulk_create
bulk_create-takes m now key [] box e = tt
bulk_create-takes m now key (u ∷ users) box e = (
  bulk_create-keeps m now u (some key) users (create_one m now u box)
      (create_one-takes m now u key box e),
  bulk_create-takes m now key users (create_one m now u box) e,
)

bulk_create-again :
    (m : Message) (now : ℕ) (users : List ℕ) (box : Box)
    → All (λ u. is_taken u m.dedupe_key box.notifications ≡ true) users
    → bulk_create m now users box ≡ box
unfolding bulk_create create_one
bulk_create-again m now [] box h = refl
bulk_create-again m now (u ∷ users) box h = rw h.0 (bulk_create-again m now users box h.1)

-- A second call for the same people under the same key, whatever it says and whenever it comes,
-- creates no row and returns 0.
pub notify-idempotent :
    (recipients : List (Option ℕ)) (m again : Message) (now later : ℕ) (key : DedupeKey) (box : Box)
    → m.dedupe_key ≡ some key
    → again.dedupe_key ≡ some key
    → let (_, after) = notify recipients m now box in
      notify recipients again later after ≡ (0, after)
unfolding notify created_count
notify-idempotent recipients m again now later key box e e' =
    let users = distinct recipients in
    let after = bulk_create m now users box in
    let same : bulk_create again later users after ≡ after =
      bulk_create-again again later users after (rw e' (bulk_create-takes m now key users box e)) in
    let count = count_notices users key after.notifications in
    let nothing : count - count ≡ 0 = omega arith in rw (same, e', nothing) refl

-- What `update` leaves of a test that its write falsifies.
mark_rows-none :
    (visible : Notification → Bool) (now : ℕ) (rows : List Notification)
    → ((n : Notification) → visible (record n { read_at = some now }) ≡ visible n)
    → count_of
        (λ n. visible n && is_unread n.read_at)
        (mark_rows (λ n. visible n && (true && is_unread n.read_at)) now rows)
      ≡ 0
unfolding mark_rows count_of
mark_rows-none visible now [] k = refl
mark_rows-none visible now (n ∷ rows) k = elim (Bool-cases (visible n && is_unread n.read_at)) [
  | inl unread ↦ rw (unread, k n) (ground (arith, mark_rows-none visible now rows k))
  | inr read ↦ rw (read, read) (mark_rows-none visible now rows k)
]

mark_rows-other :
    (p mine : Notification → Bool) (now : ℕ) (rows : List Notification)
    → ((n : Notification) → p n ≡ true → mine n ≡ false)
    → ((n : Notification) → mine (record n { read_at = some now }) ≡ mine n)
    → count_of (λ n. mine n && is_unread n.read_at) (mark_rows p now rows)
      ≡ count_of (λ n. mine n && is_unread n.read_at) rows
unfolding mark_rows count_of
mark_rows-other p mine now [] d k = refl
mark_rows-other p mine now (n ∷ rows) d k = elim (Bool-cases (p n)) [
  | inl chosen ↦ rw (chosen, k n, d n chosen) (mark_rows-other p mine now rows d k)
  | inr left ↦ rw (left, mark_rows-other p mine now rows d k) refl
]

-- `mark_all_read` returns the number that the bell showed, leaves it at 0, and changes no one
-- else's.
pub mark_all_read_lem :
    (user other now : ℕ) (box : Box)
    → user ≢ other
    → let (count, after) = mark_all_read user now box in
      (count ≡ unread_count user box)
      × (unread_count user after ≡ 0)
      × (unread_count other after ≡ unread_count other box)
unfolding mark_all_read mark_where unread_count is_visible
mark_all_read_lem user other now box ne = (
  refl,
  mark_rows-none (is_visible user box) now box.notifications (λ n. refl),
  mark_rows-other (is_marked (λ n. true) user box) (is_visible other box) now box.notifications
      (λ n h. ground (arith, ne)) (λ n. refl),
)
