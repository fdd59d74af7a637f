-- ===== src/Accounts/SecondFactor.antt =====
-- backend/apps/accounts/services.py, the second factor: its enrolment and its recovery codes. The
-- ciphers, the time-based codes and the password hasher are parameters; what is drawn at random comes
-- as an argument.
use rssi_as_a_service.Prelude.{
  ℕ, String, Bool, true, false, ◌&&◌, not, List, [], ◌∷◌, ◌++◌, map, Option, none, some, ◌==◌,
  str_eq, if◌then◌else◌, some_of, keep, first, Result, ok, guard, or_raise, ◌>>=◌, ◌>>◌,
}

pub record TwoFactorCredential : Type 0 where
  pub user : ℕ
  pub encrypted_secret : String
  pub confirmed : Bool
  pub confirmed_at : Option ℕ

pub record RecoveryCode : Type 0 where
  pub user : ℕ
  pub code_hash : String
  pub used_at : Option ℕ

pub record Vault : Type 0 where
  pub credentials : List TwoFactorCredential
  pub recovery_codes : List RecoveryCode

pub data AccountsError : Type 0 where
  key_missing secret_unreadable no_pending_enrollment wrong_code : AccountsError

abbrev pub is_unused : Option ℕ → Bool
is_unused none = true
is_unused (some _) = false

-- A code of this user that still serves.
abbrev pub serves : ℕ → RecoveryCode → Bool
serves user c = c.user == user && is_unused c.used_at

abbrev pub is_pending_of : ℕ → TwoFactorCredential → Bool
is_pending_of user c = c.user == user && not c.confirmed

unfoldable pub confirm_rows : ℕ → ℕ → List TwoFactorCredential → List TwoFactorCredential
confirm_rows user now [] = []
confirm_rows user now (c ∷ rows) =
    let rest = confirm_rows user now rows in
    (if c.user == user then record c { confirmed = true; confirmed_at = some now } else c) ∷ rest

unfoldable pub is_totp_enabled : ℕ → Vault → Bool
is_totp_enabled user vault = some_of (λ c. c.user == user && c.confirmed) vault.credentials

unfoldable pub get_confirmed_credential : ℕ → Vault → Option TwoFactorCredential
get_confirmed_credential user vault =
    first (keep (λ c. c.user == user && c.confirmed) vault.credentials)

unfoldable pub disable_totp : ℕ → Vault → Vault
disable_totp user vault = record {
  credentials = keep (λ c. not (c.user == user)) vault.credentials;
  recovery_codes = keep (λ c. not (c.user == user)) vault.recovery_codes;
}

module _ (make_password : String → String) where
  abbrev pub new_code : ℕ → String → RecoveryCode
  new_code user code = record { user = user; code_hash = make_password code; used_at = none }

  -- The drawn codes replace the codes that the user had.
  unfoldable pub generate_recovery_codes : ℕ → List String → Vault → Vault
  generate_recovery_codes user codes vault = record vault {
    recovery_codes =
        map (new_code user) codes ++ keep (λ c. not (c.user == user)) vault.recovery_codes;
  }

module _ (check_password : String → String → Bool) where
  -- The loop: the first code that still serves and that the password matches is used.
  unfoldable pub use_first : ℕ → String → ℕ → List RecoveryCode → Bool × List RecoveryCode
  use_first user code now [] = (false, [])
  use_first user code now (c ∷ rows) =
      let rest = use_first user code now rows in
      if serves user c && check_password code c.code_hash
      then (true, record c { used_at = some now } ∷ rows)
      else (rest.0, c ∷ rest.1)

  unfoldable pub consume_recovery_code : ℕ → String → ℕ → Vault → Bool × Vault
  unfolding use_first
  consume_recovery_code user code now vault =
      if str_eq code ""
      then (false, vault)
      else let used = use_first user code now vault.recovery_codes in
        (used.0, record vault { recovery_codes = used.1 })

module _ (encrypt decrypt : String → Option String) (totp : String → String → ℕ → Bool)
    (make_password : String → String) where
  -- `update_or_create`: the row of the user is replaced.
  unfoldable pub start_totp_enrollment : ℕ → String → Vault → Result AccountsError Vault
  start_totp_enrollment user secret vault = do
    encrypted ← or_raise (encrypt secret) key_missing
    ok (record vault {
      credentials =
          record {
            user = user;
            encrypted_secret = encrypted;
            confirmed = false;
            confirmed_at = none;
          }
          ∷ keep (λ c. not (c.user == user)) vault.credentials;
    })

  unfoldable pub verify_totp_code : TwoFactorCredential → String → ℕ → Result AccountsError Bool
  verify_totp_code c code now = if str_eq code "" then ok false else do
    secret ← or_raise (decrypt c.encrypted_secret) secret_unreadable
    ok (totp secret code now)

  unfoldable pub confirm_totp_enrollment :
      ℕ → String → List String → ℕ → Vault → Result AccountsError Vault
  unfolding verify_totp_code confirm_rows
  confirm_totp_enrollment user code codes now vault = do
    credential ←
        or_raise (first (keep (is_pending_of user) vault.credentials)) no_pending_enrollment
    verified ← verify_totp_code credential code now
    guard verified wrong_code
    ok (
        generate_recovery_codes make_password user codes
          (record vault { credentials = confirm_rows user now vault.credentials }))
