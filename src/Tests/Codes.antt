-- ===== src/Tests/Codes.antt =====
-- Concrete runs of the recovery codes, with a hasher that leaves a code as it is.
use rssi_as_a_service.Prelude.{
  keep, ℕ, ◌+◌, ◌≡◌, refl, String, false, List, [], ◌∷◌, str_eq, eq_iff, arith, count_of,
}
use rssi_as_a_service.Accounts.SecondFactor.{Vault, generate_recovery_codes, consume_recovery_code}
use rssi_as_a_service.Accounts.CodeUses.{HasherLaws, successes, trials, smaller}
use rssi_as_a_service.Accounts.RecoveryCodes.{consume_each, unused, generate_recovery_codes-once}

abbrev plain : String → String
plain s = s

abbrev attempts : List (String × ℕ)
attempts = ("A1", 10) ∷ ("A1", 20) ∷ ("B2", 30) ∷ []

abbrev vault : Vault
vault = record { credentials = []; recovery_codes = [] }

plain-HasherLaws : HasherLaws str_eq plain
plain-HasherLaws = record {
  own = λ code. ground (arith, eq_iff code code);
  one =
      λ code other hash a b. ground (arith, eq_iff code hash, eq_iff other hash, eq_iff code other);
}

generate_recovery_codes-once_example :
    let fresh = generate_recovery_codes plain 4 ("A1" ∷ "B2" ∷ "C3" ∷ []) vault in
    let run = consume_each str_eq 4 attempts fresh in
    ((code : String)
      → str_eq code "" ≡ false
      → successes str_eq 4 code attempts fresh
        ≡ smaller (count_of (str_eq code) ("A1" ∷ "B2" ∷ "C3" ∷ [])) (trials code attempts))
    × (run.0 + unused 4 run.1 ≡ 3)
generate_recovery_codes-once_example =
    generate_recovery_codes-once str_eq plain 4 ("A1" ∷ "B2" ∷ "C3" ∷ []) attempts vault
      plain-HasherLaws

-- « A1 », which is tried twice, succeeds once.
first_code_once :
    successes str_eq 4 "A1" attempts
      (generate_recovery_codes plain 4 ("A1" ∷ "B2" ∷ "C3" ∷ []) vault)
    ≡ 1
unfolding successes generate_recovery_codes consume_recovery_code keep
first_code_once = refl
