-- ===== src/Accounts/Lockout.antt =====
-- backend/apps/accounts/services.py, the progressive lockout of an account and of an address. The
-- cache (Django's, over Redis) and the hash of an identifier are parameters. A moment is a number of
-- microseconds.
use rssi_as_a_service.Prelude.{
  ℕ, suc, ◌+◌, ◌*◌, ◌-◌, ◌/◌, ◌≤◌, ◌≡◌, String, Bool, true, false, ◌&&◌, List, [], ◌∷◌, Option,
  none, some, ltb, leb, str_eq, if◌then◌else◌, Result, ok, err, ◌>>◌,
}

pub data Kind : Type 0 where
  account ip : Kind

-- The keys, with the hash of the identifier or the token.
pub data Key : Type 0 where
  login_fail login_lock : Kind → String → Key
  mfa_challenge : String → Key

abbrev pub same_kind : Kind → Kind → Bool
same_kind account account = true
same_kind ip ip = true
same_kind _ _ = false

abbrev pub same_key : Key → Key → Bool
same_key (login_fail k h) (login_fail k' h') = same_kind k k' && str_eq h h'
same_key (login_lock k h) (login_lock k' h') = same_kind k k' && str_eq h h'
same_key (mfa_challenge t) (mfa_challenge t') = str_eq t t'
same_key _ _ = false

abbrev pub second : ℕ
second = 1000000

-- The calls of the cache: `get` and `incr` at a moment, `set` with a timeout in seconds. `incr` gives
-- nothing on a missing key, where the library raises `ValueError`.
pub record Cache (S : Type 0) : Type 0 where
  pub get : ℕ → Key → S → Option ℕ
  pub set : ℕ → Key → ℕ → ℕ → S → S
  pub incr : ℕ → Key → S → Option (ℕ × S)
  pub delete : Key → S → S

-- What the code relies on: a value lives until its timeout, `incr` adds one, and a call touches its
-- own key alone.
pub record CacheLaws {S : Type 0} (cache : Cache S) : Type 0 where
  pub get-set :
      (now t : ℕ) (k : Key) (v d : ℕ) (s : S)
      → now ≤ t
      → cache.get t k (cache.set now k v d s) ≡ (if ltb t (now + d * second) then some v else none)
  pub get-set_other :
      (now t : ℕ) (k k' : Key) (v d : ℕ) (s : S)
      → same_key k k' ≡ false
      → cache.get t k' (cache.set now k v d s) ≡ cache.get t k' s
  pub incr-some :
      (now n : ℕ) (k : Key) (s : S)
      → cache.get now k s ≡ some n
      → (s' : S) × (cache.incr now k s ≡ some (suc n, s'))
  pub incr-none : (now : ℕ) (k : Key) (s : S) → cache.get now k s ≡ none → cache.incr now k s ≡ none
  pub incr-get :
      (now t n m : ℕ) (k : Key) (s s' : S)
      → cache.incr now k s ≡ some (n, s')
      → now ≤ t
      → cache.get t k s ≡ some m
      → cache.get t k s' ≡ some (suc m)
  pub incr-get_none :
      (now t n : ℕ) (k : Key) (s s' : S)
      → cache.incr now k s ≡ some (n, s')
      → now ≤ t
      → cache.get t k s ≡ none
      → cache.get t k s' ≡ none
  pub incr-other :
      (now t n : ℕ) (k k' : Key) (s s' : S)
      → cache.incr now k s ≡ some (n, s')
      → same_key k k' ≡ false
      → cache.get t k' s' ≡ cache.get t k' s
  pub get-delete : (t : ℕ) (k : Key) (s : S) → cache.get t k (cache.delete k s) ≡ none
  pub get-delete_other :
      (t : ℕ) (k k' : Key) (s : S)
      → same_key k k' ≡ false
      → cache.get t k' (cache.delete k s) ≡ cache.get t k' s

-- `_LOCKOUT_LADDER`
unfoldable pub lockout_ladder : List (ℕ × ℕ)
lockout_ladder = (5, 60) ∷ (10, 300) ∷ (15, 900) ∷ (20, 3600) ∷ []

abbrev pub attempt_window_seconds : ℕ
attempt_window_seconds = 900

unfoldable pub climb : ℕ → Option ℕ → List (ℕ × ℕ) → Option ℕ
climb failures duration [] = duration
climb failures duration ((threshold, seconds) ∷ rest) =
    climb failures (if leb threshold failures then some seconds else duration) rest

-- `_lockout_seconds_for`
unfoldable pub lockout_seconds_for : ℕ → Option ℕ
unfolding climb lockout_ladder
lockout_seconds_for failures = climb failures none lockout_ladder

-- `LockedOutError.retry_after_seconds`
pub record LockedOutError : Type 0 where
  pub retry_after_seconds : ℕ

-- `max(1, int(remaining))`
abbrev pub retry_after : ℕ → LockedOutError
retry_after remaining = record {
  retry_after_seconds = if leb 1 (remaining / second) then remaining / second else 1;
}

module _ {S : Type 0} (cache : Cache S) (hash : String → String) where
  unfoldable pub check_one : Kind → String → ℕ → S → Result LockedOutError (Unit {0})
  check_one kind ident now s =
      if str_eq ident "" then ok tt else elim (cache.get now (login_lock kind (hash ident)) s) [
        | none ↦ ok tt
        | some until ↦ if ltb now until then err (retry_after (until - now)) else ok tt
      ]

  unfoldable pub check_not_locked_out : String → String → ℕ → S → Result LockedOutError (Unit {0})
  unfolding check_one
  check_not_locked_out email address now s =
      check_one account email now s >> check_one ip address now s

  -- The number of failures, this one included, with the counter that holds it.
  unfoldable pub count_failure : Kind → String → ℕ → S → ℕ × S
  count_failure kind ident now s =
      let key = login_fail kind (hash ident) in
      elim (cache.incr now key s) [
        | none ↦ (1, cache.set now key 1 attempt_window_seconds s)
        | some (failures, after) ↦ (failures, after)
      ]

  unfoldable pub lock_after : Kind → String → ℕ → ℕ → S → S
  unfolding lockout_seconds_for
  lock_after kind ident now failures s = elim (lockout_seconds_for failures) [
    | none ↦ s
    | some seconds ↦ cache.set now (login_lock kind (hash ident)) (now + seconds * second) seconds s
  ]

  unfoldable pub record_one : Kind → String → ℕ → S → S
  unfolding count_failure lock_after
  record_one kind ident now s =
      let counted = count_failure kind ident now s in
      if str_eq ident "" then s else lock_after kind ident now counted.0 counted.1

  unfoldable pub record_failed_attempt : String → String → ℕ → S → S
  unfolding record_one
  record_failed_attempt email address now s =
      record_one ip address now (record_one account email now s)

  unfoldable pub clear_one : Kind → String → S → S
  clear_one kind ident s =
      if str_eq ident ""
      then s
      else cache.delete (login_lock kind (hash ident))
          (cache.delete (login_fail kind (hash ident)) s)

  unfoldable pub clear_failed_attempts : String → String → S → S
  unfolding clear_one
  clear_failed_attempts email address s = clear_one ip address (clear_one account email s)

  -- The challenge between the password and the second factor: the token is drawn by the caller.
  unfoldable pub create_mfa_challenge : String → ℕ → ℕ → S → S
  create_mfa_challenge token user now s = cache.set now (mfa_challenge token) user 300 s

  unfoldable pub resolve_mfa_challenge : String → ℕ → S → Option ℕ
  resolve_mfa_challenge token now s = cache.get now (mfa_challenge token) s

  unfoldable pub consume_mfa_challenge : String → S → S
  consume_mfa_challenge token s = cache.delete (mfa_challenge token) s
