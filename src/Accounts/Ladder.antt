-- ===== src/Accounts/Ladder.antt =====
-- backend/apps/accounts/services.py: what the ladder of lockouts does to the next attempts.
use rssi_as_a_service.Prelude.{
  ℕ, suc, ◌+◌, ◌*◌, ◌-◌, ◌≤◌, ◌<◌, ◌≡◌, refl, ◌∙◌, String, true, false, none, some, ltb, str_eq,
  arith, ok, err, ap, ◌⊎◌, Bool-cases, Option-cases, inl, inr,
}
use rssi_as_a_service.Accounts.Lockout.{
  Kind, account, ip, Key, login_fail, login_lock, same_key, second, Cache, CacheLaws,
  LockedOutError, lockout_seconds_for, retry_after, check_one, check_not_locked_out, count_failure,
  lock_after, record_one, record_failed_attempt, clear_one, clear_failed_attempts,
}

-- What a number of failures locks for: nothing before the fifth, a minute before the tenth, five
-- minutes before the fifteenth, a quarter of an hour before the twentieth, an hour from then on.
pub lockout_seconds_for_lem :
    (n : ℕ)
    → (n < 5 → lockout_seconds_for n ≡ none)
      × (5 ≤ n → n < 10 → lockout_seconds_for n ≡ some 60)
      × (10 ≤ n → n < 15 → lockout_seconds_for n ≡ some 300)
      × (15 ≤ n → n < 20 → lockout_seconds_for n ≡ some 900)
      × (20 ≤ n → lockout_seconds_for n ≡ some 3600)
unfolding lockout_seconds_for
lockout_seconds_for_lem n = (
  (λ a. ground arith),
  (λ a b. ground arith),
  (λ a b. ground arith),
  (λ a b. ground arith),
  (λ a. ground arith),
)

module _ {S : Type 0} (cache : Cache S) (laws : CacheLaws cache) (hash : String → String) where
  check_one-locked :
      (kind : Kind) (ident : String) (t until : ℕ) (s : S)
      → str_eq ident "" ≡ false
      → cache.get t (login_lock kind (hash ident)) s ≡ some until
      → t < until
      → check_one cache hash kind ident t s ≡ err (retry_after (until - t))
  unfolding check_one
  check_one-locked kind ident t until s e stored early =
      let early' : ltb t until ≡ true = ground (arith, early) in rw (e, stored, early') refl

  check_one-free :
      (kind : Kind) (ident : String) (t : ℕ) (s : S)
      → (str_eq ident "" ≡ true) ⊎ (cache.get t (login_lock kind (hash ident)) s ≡ none)
      → check_one cache hash kind ident t s ≡ ok tt
  unfolding check_one
  check_one-free kind ident t s (inl nobody) = rw nobody refl
  check_one-free kind ident t s (inr gone) = elim (Bool-cases (str_eq ident "")) [
    | inl nobody ↦ rw nobody refl
    | inr somebody ↦ rw (somebody, gone) refl
  ]

  pub count_failure-other :
      (kind : Kind) (ident : String) (now t : ℕ) (k : Key) (s : S)
      → same_key (login_fail kind (hash ident)) k ≡ false
      → cache.get t k (count_failure cache hash kind ident now s).1 ≡ cache.get t k s
  unfolding count_failure
  count_failure-other kind ident now t k s f =
      let key = login_fail kind (hash ident) in
      elim (Option-cases (cache.incr now key s)) [
        | inl missing ↦ rw (missing, count_failure) (laws.get-set_other now t key k 1 900 s f)
        | inr ((n, s'), counted) ↦
            rw (counted, count_failure) (laws.incr-other now t n key k s s' counted f)
      ]

  pub lock_after-other :
      (kind : Kind) (ident : String) (now t n : ℕ) (k : Key) (s : S)
      → same_key (login_lock kind (hash ident)) k ≡ false
      → cache.get t k (lock_after cache hash kind ident now n s) ≡ cache.get t k s
  unfolding lock_after
  lock_after-other kind ident now t n k s l = elim (Option-cases (lockout_seconds_for n)) [
    | inl free ↦ rw (free, lock_after) refl
    | inr (d, e) ↦
        rw (e, lock_after)
          (laws.get-set_other now t (login_lock kind (hash ident)) k (now + d * second) d s l)
  ]

  pub record_one-counts :
      (kind : Kind) (ident : String) (now : ℕ) (s : S)
      → str_eq ident "" ≡ false
      → let counted = count_failure cache hash kind ident now s in
        record_one cache hash kind ident now s
        ≡ lock_after cache hash kind ident now counted.0 counted.1
  unfolding record_one
  record_one-counts kind ident now s e = rw e refl

  record_one-nobody :
      (kind : Kind) (ident : String) (now : ℕ) (s : S)
      → str_eq ident "" ≡ true
      → record_one cache hash kind ident now s ≡ s
  unfolding record_one
  record_one-nobody kind ident now s e = rw e refl

  -- What is recorded for one identifier leaves the keys of the others alone.
  pub record_one-other :
      (kind : Kind) (ident : String) (now t : ℕ) (k : Key) (s : S)
      → same_key (login_fail kind (hash ident)) k ≡ false
      → same_key (login_lock kind (hash ident)) k ≡ false
      → cache.get t k (record_one cache hash kind ident now s) ≡ cache.get t k s
  record_one-other kind ident now t k s f l = elim (Bool-cases (str_eq ident "")) [
    | inl nobody ↦ ap (cache.get t k) (record_one-nobody kind ident now s nobody)
    | inr somebody ↦
        let counted = count_failure cache hash kind ident now s in
        ap (cache.get t k) (record_one-counts kind ident now s somebody)
        ∙ (lock_after-other kind ident now t counted.0 k counted.1 l
            ∙ count_failure-other kind ident now t k s f)
  ]

  pub lock_after-stores :
      (kind : Kind) (ident : String) (now t n d : ℕ) (s : S)
      → lockout_seconds_for n ≡ some d
      → now ≤ t
      → t < now + d * second
      → cache.get t (login_lock kind (hash ident)) (lock_after cache hash kind ident now n s)
        ≡ some (now + d * second)
  unfolding lock_after
  lock_after-stores kind ident now t n d s rung from early =
      let early' : ltb t (now + d * second) ≡ true = ground (arith, early) in
      rw (rung, lock_after)
        (laws.get-set now t (login_lock kind (hash ident)) (now + d * second) d s from
          ∙ rw early' refl)

  count_failure-counts :
      (kind : Kind) (ident : String) (now n : ℕ) (s : S)
      → cache.get now (login_fail kind (hash ident)) s ≡ some n
      → (count_failure cache hash kind ident now s).0 ≡ suc n
  unfolding count_failure
  count_failure-counts kind ident now n s e =
      let (s', counted) = laws.incr-some now n (login_fail kind (hash ident)) s e in
      rw (counted, count_failure) refl

  refused_first :
      (email address : String) (t : ℕ) (s : S) (e : LockedOutError)
      → check_one cache hash account email t s ≡ err e
      → check_not_locked_out cache hash email address t s ≡ err e
  unfolding check_not_locked_out
  refused_first email address t s e h = rw h refl

  -- The failure that brings the account's counter to a number whose lockout lasts `d` seconds locks
  -- it: until then, from whatever address, an attempt is refused with the time that is left.
  pub record_failed_attempt-locks :
      (email address elsewhere : String) (now t n d : ℕ) (s : S)
      → str_eq email "" ≡ false
      → cache.get now (login_fail account (hash email)) s ≡ some n
      → lockout_seconds_for (suc n) ≡ some d
      → now ≤ t
      → t < now + d * second
      → check_not_locked_out cache hash email elsewhere t
          (record_failed_attempt cache hash email address now s)
        ≡ err (retry_after (now + d * second - t))
  unfolding record_failed_attempt
  record_failed_attempt-locks email address elsewhere now t n d s e counter rung from early =
      let lock_key = login_lock account (hash email) in
      let counted = count_failure cache hash account email now s in
      let mid = record_one cache hash account email now s in
      let rung' : lockout_seconds_for counted.0 ≡ some d =
        ap lockout_seconds_for (count_failure-counts account email now n s counter) ∙ rung in
      let stored : cache.get t lock_key (record_one cache hash ip address now mid)
          ≡ some (now + d * second) =
        record_one-other ip address now t lock_key mid refl refl
        ∙ (ap (cache.get t lock_key) (record_one-counts account email now s e)
            ∙ lock_after-stores account email now t counted.0 d counted.1 rung' from early) in
      refused_first email elsewhere t (record_one cache hash ip address now mid) _
        (check_one-locked account email t (now + d * second) _ e stored early)

  clear_one-other :
      (kind : Kind) (ident : String) (t : ℕ) (k : Key) (s : S)
      → same_key (login_fail kind (hash ident)) k ≡ false
      → same_key (login_lock kind (hash ident)) k ≡ false
      → cache.get t k (clear_one cache hash kind ident s) ≡ cache.get t k s
  unfolding clear_one
  clear_one-other kind ident t k s f l = elim (Bool-cases (str_eq ident "")) [
    | inl nobody ↦ rw nobody refl
    | inr somebody ↦ rw somebody (
        laws.get-delete_other t (login_lock kind (hash ident)) k
          (cache.delete (login_fail kind (hash ident)) s) l
        ∙ laws.get-delete_other t (login_fail kind (hash ident)) k s f)
  ]

  clear_one-gone :
      (kind : Kind) (ident : String) (t : ℕ) (s : S)
      → (str_eq ident "" ≡ true)
        ⊎ (cache.get t (login_lock kind (hash ident)) (clear_one cache hash kind ident s) ≡ none)
  unfolding clear_one
  clear_one-gone kind ident t s = elim (Bool-cases (str_eq ident "")) [
    | inl nobody ↦ inl nobody
    | inr somebody ↦ inr (rw somebody (laws.get-delete t (login_lock kind (hash ident)) _))
  ]

  -- After `clear_failed_attempts`, no lockout is left on the account or the address, whenever the
  -- next attempt comes.
  pub clear_failed_attempts-unlocks :
      (email address : String) (t : ℕ) (s : S)
      → check_not_locked_out cache hash email address t
          (clear_failed_attempts cache hash email address s)
        ≡ ok tt
  unfolding check_not_locked_out clear_failed_attempts
  clear_failed_attempts-unlocks email address t s =
      let mid = clear_one cache hash account email s in
      let after = clear_one cache hash ip address mid in
      let lock_key = login_lock account (hash email) in
      let kept = clear_one-other ip address t lock_key mid refl refl in
      let first : check_one cache hash account email t after ≡ ok tt =
        elim (clear_one-gone account email t s) [
          | inl nobody ↦ check_one-free account email t after (inl nobody)
          | inr gone ↦ check_one-free account email t after (inr (kept ∙ gone))
        ] in
      rw (first, check_one-free ip address t after (clear_one-gone ip address t mid)) refl
