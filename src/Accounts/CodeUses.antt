-- ===== src/Accounts/CodeUses.antt =====
-- backend/apps/accounts/services.py: how often one recovery code succeeds in a run of attempts.
use rssi_as_a_service.Prelude.{
  ℕ, suc, ◌+◌, ◌≡◌, refl, sym, subst, eq_iff, ltb, leb, if◌then◌else◌, String, Bool, true, false,
  ◌&&◌, List, [], ◌∷◌, str_eq, count_of, arith, Bool-cases, inl, inr,
}
use rssi_as_a_service.Accounts.SecondFactor.{
  RecoveryCode, Vault, serves, use_first, consume_recovery_code,
}

-- One for a success.
abbrev pub one_if : Bool → ℕ
one_if true = 1
one_if false = 0

abbrev pub smaller : ℕ → ℕ → ℕ
smaller a b = if leb a b then a else b

-- How often a code is tried.
unfoldable pub trials : String → List (String × ℕ) → ℕ
trials code [] = 0
trials code ((tried, now) ∷ attempts) =
    let rest = trials code attempts in if str_eq code tried then suc rest else rest

module _ (check_password : String → String → Bool) where
  -- What the code relies on: a password matches its own hash, and a hash is matched by one password.
  pub record HasherLaws (make_password : String → String) : Type 0 where
    pub own : (code : String) → check_password code (make_password code) ≡ true
    pub one :
        (code other hash : String)
        → check_password code hash ≡ true
        → check_password other hash ≡ true
        → str_eq code other ≡ true

  -- A code of this user that still serves, and that a text matches.
  abbrev pub fits : ℕ → String → RecoveryCode → Bool
  fits user code c = serves user c && check_password code c.code_hash

  -- How often a code succeeds.
  unfoldable pub successes : ℕ → String → List (String × ℕ) → Vault → ℕ
  successes user code [] vault = 0
  successes user code ((tried, now) ∷ attempts) vault =
      let done = consume_recovery_code check_password user tried now vault in
      let rest = successes user code attempts done.1 in
      if str_eq code tried && done.0 then suc rest else rest

  -- The code that is tried succeeds where a row fits it, and uses up one such row.
  use_first-fits :
      (user : ℕ) (code : String) (now : ℕ) (rows : List RecoveryCode)
      → let used = use_first check_password user code now rows in
        (one_if used.0 + count_of (fits user code) used.1 ≡ count_of (fits user code) rows)
        × (used.0 ≡ ltb 0 (count_of (fits user code) rows))
  unfolding use_first count_of
  use_first-fits user code now [] = (refl, refl)
  use_first-fits user code now (c ∷ rows) =
      let (counts, found) = use_first-fits user code now rows in
      elim (Bool-cases (serves user c && check_password code c.code_hash)) [
        | inl used ↦ rw used (ground (arith, used), ground (arith, used))
        | inr passed ↦ rw passed (ground (arith, counts), ground (arith, found))
      ]

  module _ (make_password : String → String) (laws : HasherLaws make_password) where
    pub drawn-fits : (code d : String) → check_password code (make_password d) ≡ str_eq code d
    drawn-fits code d =
        let same : str_eq code d ≡ true → check_password code (make_password d) ≡ true = λ e.
          subst (λ x. check_password x (make_password d) ≡ true) (sym ((eq_iff code d).0 e))
            (laws.own d) in
        ground (arith, same, laws.one code d (make_password d), laws.own d)

    -- It leaves the rows that fit another text as they are.
    use_first-others :
        (user : ℕ) (code other : String) (now : ℕ) (rows : List RecoveryCode)
        → str_eq other code ≡ false
        → count_of (fits user other) (use_first check_password user code now rows).1
          ≡ count_of (fits user other) rows
    unfolding use_first count_of
    use_first-others user code other now [] ne = refl
    use_first-others user code other now (c ∷ rows) ne =
        elim (Bool-cases (serves user c && check_password code c.code_hash)) [
          | inl used ↦ rw used (ground (arith, used, ne, laws.one other code c.code_hash))
          | inr passed ↦ rw passed (ground (arith, use_first-others user code other now rows ne))
        ]

    consume-fits :
        (user : ℕ) (code : String) (now : ℕ) (vault : Vault)
        → str_eq code "" ≡ false
        → let done = consume_recovery_code check_password user code now vault in
          let before = count_of (fits user code) vault.recovery_codes in
          (one_if done.0 + count_of (fits user code) done.1.recovery_codes ≡ before)
          × (done.0 ≡ ltb 0 before)
    unfolding consume_recovery_code
    consume-fits user code now vault given =
        rw given (use_first-fits user code now vault.recovery_codes)

    consume-others :
        (user : ℕ) (code tried : String) (now : ℕ) (vault : Vault)
        → str_eq code tried ≡ false
        → let done = consume_recovery_code check_password user tried now vault in
          count_of (fits user code) done.1.recovery_codes
          ≡ count_of (fits user code) vault.recovery_codes
    unfolding consume_recovery_code
    consume-others user code tried now vault ne = elim (Bool-cases (str_eq tried "")) [
      | inl empty ↦ rw empty refl
      | inr given ↦ rw given (use_first-others user tried code now vault.recovery_codes ne)
    ]

    pub successes-smaller :
        (user : ℕ) (code : String) (attempts : List (String × ℕ)) (vault : Vault)
        → str_eq code "" ≡ false
        → successes user code attempts vault
          ≡ smaller (count_of (fits user code) vault.recovery_codes) (trials code attempts)
    unfolding successes trials
    successes-smaller user code [] vault given = ground arith
    successes-smaller user code ((tried, now) ∷ attempts) vault given =
        let done = consume_recovery_code check_password user tried now vault in
        let rest = successes-smaller user code attempts done.1 given in
        elim (Bool-cases (str_eq code tried)) [
          | inl same ↦
              let e : code ≡ tried = (eq_iff code tried).0 same in
              let (counts, found) =
                subst
                  (λ t.
                    let done = consume_recovery_code check_password user t now vault in
                    let before = count_of (fits user code) vault.recovery_codes in
                    (one_if done.0 + count_of (fits user code) done.1.recovery_codes ≡ before)
                    × (done.0 ≡ ltb 0 before))
                  e (consume-fits user code now vault given) in
              elim (Bool-cases done.0) [
                | inl used ↦ rw (same, used) (ground (arith, rest, counts, found, used))
                | inr refused ↦ rw (same, refused) (ground (arith, rest, counts, found, refused))
              ]
          | inr other ↦
              let left = consume-others user code tried now vault other in
              rw other (ground (arith, rest, left))
        ]
