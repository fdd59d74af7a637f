-- ===== src/Tests/Accounts.antt =====
-- Concrete runs of the accounts, with a cache held in memory.
use rssi_as_a_service.Prelude.{
  ◌<◌, ℕ, suc, ◌+◌, ◌*◌, ◌-◌, ◌≤◌, ◌≡◌, refl, ◌∙◌, sym, ap, String, true, false, ◌&&◌, [], ◌∷◌,
  Option, none, some, ltb, eq_iff, if◌then◌else◌, arith, ok, err, Option-cases, inl, inr, count_of,
  get_or,
}
use rssi_as_a_service.Accounts.Lockout.{
  account, ip, Key, login_fail, login_lock, mfa_challenge, same_key, second, Cache, CacheLaws,
  lockout_seconds_for, retry_after, check_one, record_one, count_failure, lock_after,
  check_not_locked_out, record_failed_attempt, clear_failed_attempts,
}
use rssi_as_a_service.Accounts.Ladder.{
  lockout_seconds_for_lem, record_failed_attempt-locks, clear_failed_attempts-unlocks,
}
use rssi_as_a_service.Accounts.Window.{none_yet, one_more}
use rssi_as_a_service.Accounts.Rungs.{Attempts-bounded}
use rssi_as_a_service.Accounts.Invitations.{
  reset, User, Registry, link_unusable, is_for, is_usable, find_token, find_user,
  create_access_invitation, resolve_access_invitation, accept_access_invitation, revoke_links,
}
use rssi_as_a_service.Accounts.Links.{
  create_access_invitation-replaces, accept_access_invitation-once,
}

abbrev Memory : Type 0
Memory = Key → Option (ℕ × ℕ)

abbrev alive : ℕ → Option (ℕ × ℕ) → Option ℕ
alive t none = none
alive t (some (v, expiry)) = if ltb t expiry then some v else none

abbrev put : Key → Option (ℕ × ℕ) → Memory → Memory
put k x s k' = if same_key k k' then x else s k'

abbrev bump : Option (ℕ × ℕ) → Option (ℕ × ℕ)
bump none = none
bump (some (v, expiry)) = some (suc v, expiry)

abbrev bumped : Key → Option ℕ → Memory → Option (ℕ × Memory)
bumped k none s = none
bumped k (some n) s = some (suc n, put k (bump (s k)) s)

abbrev memory : Cache Memory
memory = record {
  get = λ t k s. alive t (s k);
  set = λ now k v d s. put k (some (v, now + d * second)) s;
  incr = λ now k s. bumped k (alive now (s k)) s;
  delete = λ k s. put k none s;
}

same_key_refl : (k : Key) → same_key k k ≡ true
same_key_refl (login_fail account h) = ground (arith, eq_iff h h)
same_key_refl (login_fail ip h) = ground (arith, eq_iff h h)
same_key_refl (login_lock account h) = ground (arith, eq_iff h h)
same_key_refl (login_lock ip h) = ground (arith, eq_iff h h)
same_key_refl (mfa_challenge t) = ground (arith, eq_iff t t)

bumped-other :
    (now t n : ℕ) (k k' : Key) (s s' : Memory)
    → bumped k (alive now (s k)) s ≡ some (n, s')
    → same_key k k' ≡ false
    → alive t (s' k') ≡ alive t (s k')
bumped-other now t n k k' s s' h other = elim (Option-cases (alive now (s k))) [
  | inl missing ↦ cc (sym (ap (λ o. bumped k o s) missing) ∙ h)
  | inr (m, e) ↦
      let counted = sym (ap (λ o. bumped k o s) e) ∙ h in
      let same : put k (bump (s k)) s k' ≡ s' k' =
        ap (λ o. elim o [ none ↦ s k' | some p ↦ p.1 k' ]) counted in
      ap (alive t) (sym same) ∙ rw other refl
]

-- What `incr` leaves under its own key.
bumped-own :
    (now n t : ℕ) (k : Key) (s s' : Memory)
    → bumped k (alive now (s k)) s ≡ some (n, s')
    → alive t (s' k) ≡ alive t (bump (s k))
bumped-own now n t k s s' h = elim (Option-cases (alive now (s k))) [
  | inl missing ↦ cc (sym (ap (λ o. bumped k o s) missing) ∙ h)
  | inr (m, e) ↦
      let counted = sym (ap (λ o. bumped k o s) e) ∙ h in
      let same : put k (bump (s k)) s k ≡ s' k =
        ap (λ o. elim o [ none ↦ s k | some p ↦ p.1 k ]) counted in
      ap (alive t) (sym same) ∙ rw (same_key_refl k) refl
]

bump-some : (t m : ℕ) (x : Option (ℕ × ℕ)) → alive t x ≡ some m → alive t (bump x) ≡ some (suc m)
bump-some t m none h = cc
bump-some t m (some (v, expiry)) h = ground (arith, h)

bump-none : (t : ℕ) (x : Option (ℕ × ℕ)) → alive t x ≡ none → alive t (bump x) ≡ none
bump-none t none h = refl
bump-none t (some (v, expiry)) h = ground (arith, h)

bumped-get :
    (now t n m : ℕ) (k : Key) (s s' : Memory)
    → bumped k (alive now (s k)) s ≡ some (n, s')
    → now ≤ t
    → alive t (s k) ≡ some m
    → alive t (s' k) ≡ some (suc m)
bumped-get now t n m k s s' h from e = bumped-own now n t k s s' h ∙ bump-some t m (s k) e

bumped-get_none :
    (now t n : ℕ) (k : Key) (s s' : Memory)
    → bumped k (alive now (s k)) s ≡ some (n, s')
    → now ≤ t
    → alive t (s k) ≡ none
    → alive t (s' k) ≡ none
bumped-get_none now t n k s s' h from e = bumped-own now n t k s s' h ∙ bump-none t (s k) e

memory-CacheLaws : CacheLaws memory
memory-CacheLaws = record {
  get-set = λ now t k v d s h. rw (same_key_refl k) refl;
  get-set_other = λ now t k k' v d s h. rw h refl;
  incr-some = λ now n k s h. (put k (bump (s k)) s, ap (λ o. bumped k o s) h);
  incr-none = λ now k s h. ap (λ o. bumped k o s) h;
  incr-get = bumped-get;
  incr-get_none = bumped-get_none;
  incr-other = bumped-other;
  get-delete = λ t k s. rw (same_key_refl k) refl;
  get-delete_other = λ t k k' s h. rw h refl;
}

abbrev plain : String → String
plain s = s

-- Four failures on one account.
abbrev four : Memory
four = put (login_fail account "ana") (some (4, 900 * second)) (λ k. none)

rung_5 : lockout_seconds_for 5 ≡ some 60
unfolding lockout_seconds_for
rung_5 = refl

lockout_seconds_for_lem_example :
    (12 < 5 → lockout_seconds_for 12 ≡ none)
    × (5 ≤ 12 → 12 < 10 → lockout_seconds_for 12 ≡ some 60)
    × (10 ≤ 12 → 12 < 15 → lockout_seconds_for 12 ≡ some 300)
    × (15 ≤ 12 → 12 < 20 → lockout_seconds_for 12 ≡ some 900)
    × (20 ≤ 12 → lockout_seconds_for 12 ≡ some 3600)
lockout_seconds_for_lem_example = lockout_seconds_for_lem 12

-- The fifth one, at 10 s; another attempt from elsewhere, at 20 s.
record_failed_attempt-locks_example :
    check_not_locked_out memory plain "ana" "far"
      (20 * second)
      (record_failed_attempt memory plain "ana" "near" (10 * second) four)
    ≡ err (retry_after (10 * second + 60 * second - 20 * second))
record_failed_attempt-locks_example =
    record_failed_attempt-locks memory memory-CacheLaws plain "ana" "near" "far" (10 * second)
      (20 * second) 4 60 four refl refl rung_5 (omega arith) (omega arith)

clear_failed_attempts-unlocks_example :
    check_not_locked_out memory plain "ana" "near"
      (20 * second)
      (clear_failed_attempts memory plain "ana" "near" four)
    ≡ ok tt
clear_failed_attempts-unlocks_example =
    clear_failed_attempts-unlocks memory memory-CacheLaws plain "ana" "near" (20 * second) four

abbrev ana : User
ana = record { id = 4; email = "ana"; password = ""; is_active = false }

abbrev registry : Registry Memory
registry = record { users = ana ∷ []; invitations = []; next_invitation = 0; cache = four }

abbrev issued : Registry Memory
issued = (create_access_invitation memory plain plain plain 4 reset none none "token" 0 registry).1

abbrev reissued : Registry Memory
reissued = (create_access_invitation memory plain plain plain 4 reset none none "again" 5 issued).1

create_access_invitation-replaces_example :
    count_of (λ i. is_for 4 reset i && is_usable 10 i) reissued.invitations ≡ 1
create_access_invitation-replaces_example =
    create_access_invitation-replaces memory plain plain plain 4 reset none none "again" 5 10 issued
      (omega arith)

abbrev taken : User × Registry Memory
taken = elim (accept_access_invitation memory plain plain plain "token" "secret" 10 issued) [
  | ok result ↦ result
  | err _ ↦ (ana, issued)
]

taken_done :
    accept_access_invitation memory plain plain plain "token" "secret" 10 issued
    ≡ ok (taken.0, taken.1)
unfolding accept_access_invitation resolve_access_invitation find_token is_usable find_user
    create_access_invitation revoke_links
taken_done = refl

accept_access_invitation-once_example :
    accept_access_invitation memory plain plain plain "token" "other" 20 taken.1 ≡ err link_unusable
accept_access_invitation-once_example =
    accept_access_invitation-once memory plain plain plain "token" "secret" "other" 10 20 issued
      taken.1 taken.0 taken_done

abbrev blank : Memory
blank k = none

first_passes : check_not_locked_out memory plain "ana" "near" 5 blank ≡ ok tt
unfolding check_not_locked_out check_one
first_passes = refl

first_counted :
    memory.get 6
      (login_fail account "ana")
      (record_failed_attempt memory plain "ana" "near" 5 blank)
    ≡ some 1
unfolding record_failed_attempt record_one count_failure lock_after lockout_seconds_for
first_counted = refl

Attempts-bounded_example : (1 ≤ 11) × (get_or (lockout_seconds_for 1) 0 ≤ 300)
Attempts-bounded_example =
    Attempts-bounded memory memory-CacheLaws plain "ana" refl 0 5 6 1 blank
      (record_failed_attempt memory plain "ana" "near" 5 blank) (λ t from. refl)
      (one_more "near" 5 none_yet (omega arith) first_passes) (omega arith) first_counted
