-- ===== src/Accounts/Window.antt =====
-- backend/apps/accounts/services.py: the counter of an account over its window of 15 minutes, and what
-- one attempt that fails does to it.
use rssi_as_a_service.Prelude.{
  ℕ, suc, ◌+◌, ◌*◌, ◌-◌, ◌≤◌, ◌≡◌, refl, ◌∙◌, ap, String, true, false, none, some, ltb, leb, str_eq,
  arith, ok, Bool-cases, inl, inr, ◌⊎◌, if◌then◌else◌,
}
use rssi_as_a_service.Accounts.Lockout.{
  account, ip, Key, login_fail, login_lock, second, Cache, CacheLaws, lockout_seconds_for,
  check_one, check_not_locked_out, count_failure, lock_after, record_one, record_failed_attempt,
}
use rssi_as_a_service.Accounts.Ladder.{lock_after-other, record_one-counts, record_one-other}

abbrev pub window : ℕ
window = 900 * second

-- From the first failure on, the earliest end of the lockout of the n-th one.
abbrev pub earliest : ℕ → ℕ
earliest n =
    if leb n 4 then 0 else if leb n 9 then (n - 4) * 60 * second else (n - 8) * 300 * second

module _ {S : Type 0} (cache : Cache S) (hash : String → String) (email : String) where
  abbrev fail_key : Key
  fail_key = login_fail account (hash email)

  abbrev lock_key : Key
  lock_key = login_lock account (hash email)

  -- From `last` on, the account's counter is absent.
  abbrev pub IsFresh : ℕ → S → Type 0
  IsFresh last s = (t : ℕ) → last ≤ t → cache.get t fail_key s ≡ none

  -- From `last` on, the counter holds `n` until its window ends.
  abbrev pub Holds : ℕ → ℕ → ℕ → S → Type 0
  Holds n start last s =
      (t : ℕ)
      → last ≤ t
      → cache.get t fail_key s ≡ (if ltb t (start + window) then some n else none)

  abbrev pub IsLocked : ℕ → ℕ → S → Type 0
  IsLocked until last s =
      (t : ℕ) → last ≤ t → cache.get t lock_key s ≡ (if ltb t until then some until else none)

  -- The counter of a window that began at `start`, and its lockout.
  pub record Counting (last : ℕ) (s : S) : Type 0 where
    pub failures : ℕ
    pub start : ℕ
    pub until : ℕ
    pub begun : start ≤ last
    pub bounded : failures ≤ 11
    pub holds : Holds failures start last s
    pub locked : (failures ≤ 4) ⊎ IsLocked until last s
    pub spaced : start + earliest failures ≤ until

  -- Attempts one after another: each one passes the check, then fails.
  pub data Attempts (s : S) (first : ℕ) : ℕ → S → Type 0 where
    none_yet : Attempts s first first s
    one_more :
        {last : ℕ} {mid : S} (address : String) (now : ℕ)
        → Attempts s first last mid
        → last ≤ now
        → check_not_locked_out cache hash email address now mid ≡ ok tt
        → Attempts s first now (record_failed_attempt cache hash email address now mid)

  module _ (laws : CacheLaws cache) (named : str_eq email "" ≡ false) where
    -- An attempt that passes the check finds no lockout.
    pub passes-unlocked :
        (address : String) (now until last : ℕ) (s : S)
        → check_not_locked_out cache hash email address now s ≡ ok tt
        → last ≤ now
        → IsLocked until last s
        → until ≤ now
    unfolding check_not_locked_out check_one
    passes-unlocked address now until last s passed from locked =
        elim (Bool-cases (ltb now until)) [
          | inl early ↦
              let stored : cache.get now lock_key s ≡ some until =
                locked now from ∙ rw early refl in
              ground (arith, passed, stored, early, named)
          | inr late ↦ ground (arith, late)
        ]

    -- What an attempt leaves on the account's keys is what its own part writes.
    pub attempt-get :
        (address : String) (now t : ℕ) (s : S)
        → let counted = count_failure cache hash account email now s in
          let after = lock_after cache hash account email now counted.0 counted.1 in
          (cache.get t fail_key (record_failed_attempt cache hash email address now s)
            ≡ cache.get t fail_key counted.1)
          × (cache.get t lock_key (record_failed_attempt cache hash email address now s)
              ≡ cache.get t lock_key after)
    unfolding record_failed_attempt
    attempt-get address now t s =
        let counted = count_failure cache hash account email now s in
        let mid = record_one cache hash account email now s in
        let own = record_one-counts cache laws hash account email now s named in
        (
          record_one-other cache laws hash ip address now t fail_key mid refl refl
              ∙ (ap (cache.get t fail_key) own
                  ∙ lock_after-other cache laws hash account email now t counted.0 fail_key
                      counted.1 refl),
          record_one-other cache laws hash ip address now t lock_key mid refl refl
              ∙ ap (cache.get t lock_key) own,
        )

    count-absent :
        (now : ℕ) (s : S)
        → cache.get now fail_key s ≡ none
        → Holds 1 now now (count_failure cache hash account email now s).1
    unfolding count_failure
    count-absent now s absent t from =
        rw (count_failure, laws.incr-none now fail_key s absent)
          (laws.get-set now t fail_key 1 900 s from)

    pub count-present :
        (now last n start : ℕ) (s : S)
        → Holds n start last s
        → last ≤ now
        → ltb now (start + window) ≡ true
        → ((count_failure cache hash account email now s).0 ≡ suc n)
          × Holds (suc n) start now (count_failure cache hash account email now s).1
    unfolding count_failure
    count-present now last n start s holds from early =
        let present : cache.get now fail_key s ≡ some n = holds now from ∙ rw early refl in
        let (s', counted) = laws.incr-some now n fail_key s present in
        (
          rw (count_failure, counted) refl,
          λ t later.
              let before = holds t (omega (arith, from, later)) in
              rw (count_failure, counted)
                (elim (Bool-cases (ltb t (start + window))) [
                  | inl lives ↦ rw lives (
                      laws.incr-get now t (suc n) n fail_key s s' counted later
                        (before ∙ rw lives refl))
                  | inr over ↦ rw over (
                      laws.incr-get_none now t (suc n) fail_key s s' counted later
                        (before ∙ rw over refl))
                ]),
        )

    pub lock-IsLocked :
        (now n d : ℕ) (s : S)
        → lockout_seconds_for n ≡ some d
        → IsLocked (now + d * second) now (lock_after cache hash account email now n s)
    unfolding lock_after
    lock-IsLocked now n d s rung t from =
        rw (rung, lock_after) (laws.get-set now t lock_key (now + d * second) d s from)

    pub attempt-absent :
        (address : String) (now : ℕ) (s : S)
        → cache.get now fail_key s ≡ none
        → Counting now (record_failed_attempt cache hash email address now s)
    attempt-absent address now s absent = record {
      failures = 1;
      start = now;
      until = now;
      begun = omega arith;
      bounded = omega arith;
      holds = λ t from. (attempt-get address now t s).0 ∙ count-absent now s absent t from;
      locked = inl (omega arith);
      spaced = omega arith;
    }
