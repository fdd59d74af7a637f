-- ===== src/Accounts/RecoveryCodes.antt =====
-- backend/apps/accounts/services.py: how often the recovery codes of a user serve.
use rssi_as_a_service.Prelude.{
  ℕ, ◌+◌, ◌≡◌, refl, ap, ◌∙◌, String, Bool, false, ◌&&◌, not, List, [], ◌∷◌, map, ◌==◌, str_eq,
  keep, count_of, length, arith, Bool-cases, inl, inr, ==-refl, count_of-append,
}
use rssi_as_a_service.Accounts.SecondFactor.{
  RecoveryCode, Vault, serves, new_code, generate_recovery_codes, use_first, consume_recovery_code,
}
use rssi_as_a_service.Accounts.CodeUses.{
  one_if, smaller, HasherLaws, fits, trials, successes, drawn-fits, successes-smaller,
}

abbrev pub unused : ℕ → Vault → ℕ
unused user vault = count_of (serves user) vault.recovery_codes

module _ (check_password : String → String → Bool) where
  use_first-counts :
      (user : ℕ) (code : String) (now : ℕ) (rows : List RecoveryCode)
      → let used = use_first check_password user code now rows in
        one_if used.0 + count_of (serves user) used.1 ≡ count_of (serves user) rows
  unfolding use_first count_of
  use_first-counts user code now [] = refl
  use_first-counts user code now (c ∷ rows) =
      elim (Bool-cases (serves user c && check_password code c.code_hash)) [
        | inl used ↦ rw used (ground (arith, used))
        | inr passed ↦ rw passed (ground (arith, use_first-counts user code now rows))
      ]

  -- A run of attempts, each with its moment: the number of successes, and what is left.
  unfoldable pub consume_each : ℕ → List (String × ℕ) → Vault → ℕ × Vault
  consume_each user [] vault = (0, vault)
  consume_each user ((code, now) ∷ attempts) vault =
      let tried = consume_recovery_code check_password user code now vault in
      let rest = consume_each user attempts tried.1 in (one_if tried.0 + rest.0, rest.1)

  consume-counts :
      (user : ℕ) (code : String) (now : ℕ) (vault : Vault)
      → let tried = consume_recovery_code check_password user code now vault in
        one_if tried.0 + unused user tried.1 ≡ unused user vault
  unfolding consume_recovery_code
  consume-counts user code now vault = elim (Bool-cases (str_eq code "")) [
    | inl empty ↦ rw empty (omega arith)
    | inr given ↦ rw given (use_first-counts user code now vault.recovery_codes)
  ]

  consume_each-counts :
      (user : ℕ) (attempts : List (String × ℕ)) (vault : Vault)
      → let run = consume_each user attempts vault in run.0 + unused user run.1 ≡ unused user vault
  unfolding consume_each
  consume_each-counts user [] vault = omega arith
  consume_each-counts user ((code, now) ∷ attempts) vault =
      let tried = consume_recovery_code check_password user code now vault in
      let one = consume-counts user code now vault in
      let rest = consume_each-counts user attempts tried.1 in omega (arith, one, rest)

  module _ (make_password : String → String) where
    count-new :
        (user : ℕ) (codes : List String)
        → count_of (serves user) (map (new_code make_password user) codes) ≡ length codes
    unfolding count_of
    count-new user [] = refl
    count-new user (code ∷ codes) = rw (==-refl user, count-new user codes) refl

    count-others :
        (user : ℕ) (rows : List RecoveryCode)
        → count_of (serves user) (keep (λ c. not (c.user == user)) rows) ≡ 0
    unfolding count_of keep
    count-others user [] = refl
    count-others user (c ∷ rows) = ground (arith, count-others user rows)

    count-drawn :
        (user : ℕ) (code : String) (codes : List String)
        → HasherLaws check_password make_password
        → count_of (fits check_password user code) (map (new_code make_password user) codes)
          ≡ count_of (str_eq code) codes
    unfolding count_of
    count-drawn user code [] laws = refl
    count-drawn user code (d ∷ codes) laws =
        rw
          (
            ==-refl user,
            drawn-fits check_password make_password laws code d,
            count-drawn user code codes laws,
          )
          refl

    count-kept :
        (user : ℕ) (code : String) (rows : List RecoveryCode)
        → count_of (fits check_password user code) (keep (λ c. not (c.user == user)) rows) ≡ 0
    unfolding count_of keep
    count-kept user code [] = refl
    count-kept user code (c ∷ rows) = ground (arith, count-kept user code rows)

    -- Once codes are drawn for a user, whatever is tried with that user's name, in whatever order and
    -- at whatever moments, a code that is not blank succeeds as many times as it was drawn, or as it is
    -- tried if that is less: a code drawn once succeeds at its first trial alone, and one that was not
    -- drawn never. All the successes and the codes that still serve are together as many as the codes
    -- drawn. The hasher accepts the code that it hashed, and no hash is that of two codes.
    pub generate_recovery_codes-once :
        (user : ℕ) (codes : List String) (attempts : List (String × ℕ)) (vault : Vault)
        → HasherLaws check_password make_password
        → let fresh = generate_recovery_codes make_password user codes vault in
          let run = consume_each user attempts fresh in
          ((code : String)
            → str_eq code "" ≡ false
            → successes check_password user code attempts fresh
              ≡ smaller (count_of (str_eq code) codes) (trials code attempts))
          × (run.0 + unused user run.1 ≡ length codes)
    unfolding generate_recovery_codes
    generate_recovery_codes-once user codes attempts vault laws =
        let drawn = map (new_code make_password user) codes in
        let others = keep (λ c. not (c.user == user)) vault.recovery_codes in
        let fresh = generate_recovery_codes make_password user codes vault in
        (
          (λ code given.
              let served =
                successes-smaller check_password make_password laws user code attempts fresh
                  given in
              let rows = count_of-append (fits check_password user code) drawn others in
              let left : count_of (fits check_password user code) fresh.recovery_codes
                  ≡ count_of (str_eq code) codes =
                omega (
                  arith,
                  rows,
                  count-drawn user code codes laws,
                  count-kept user code vault.recovery_codes,
                ) in
              served ∙ ap (λ n. smaller n (trials code attempts)) left),
          omega (
            arith,
            consume_each-counts user attempts fresh,
            count_of-append (serves user) drawn others,
            count-new user codes,
            count-others user vault.recovery_codes,
          ),
        )
