-- ===== src/Training/Attempts.antt =====
-- backend/apps/training/services.py: what holds of the attempts and the certificates of a client, whatever
-- is done with its enrolments.
use rssi_as_a_service.Prelude.{
  ℕ, suc, ◌≤◌, ◌<◌, String, ◌≡◌, refl, Bool, true, false, List, [], ◌∷◌, none, some, ◌==◌,
  if◌then◌else◌, keep, length, some_of, first, ok, arith, Bool-cases, inl, inr,
}
use rssi_as_a_service.Training.Model.{
  Enrollment, Attempt, Certificate, Question, School, attempts_allowed,
}
use rssi_as_a_service.Training.Session.{
  attempts_of, certificate_of, etat_de_session, delivrer_lattestation, submit, soumettre_le_quiz,
  QuizResult, new_attempt, new_certificate, detail,
}
use rssi_as_a_service.Training.Links.{find_enrollment}

abbrev pub is_passed : Attempt → Bool
is_passed a = a.passed

-- The attempts of an enrolment, newest first, are numbered from 1 without a gap.
abbrev pub Numbered : List Attempt → Type 0
Numbered [] = Unit
Numbered (a ∷ rest) = (a.number ≡ suc (length rest)) × Numbered rest

-- None follows one that passed.
abbrev pub Closed : List Attempt → Type 0
Closed [] = Unit
Closed (a ∷ rest) = (some_of is_passed rest ≡ false) × Closed rest

abbrev pub certificates_of : School → ℕ → List Certificate
certificates_of school id = keep (λ (c : Certificate). c.enrollment == id) school.certificates

abbrev pub any : List Certificate → Bool
any [] = false
any (_ ∷ _) = true

-- The attempts and the certificates of one enrolment: a certificate, one at most, for who passed.
pub record Fair (essais : List Attempt) (certificates : List Certificate) : Type 0 where
  pub numbered : Numbered essais
  pub closed : Closed essais
  pub proved : some_of is_passed essais ≡ any certificates
  pub once : length certificates ≤ 1

pub record IsSound (school : School) : Type 0 where
  pub fair : (id : ℕ) → Fair (attempts_of school id) (certificates_of school id)
  pub bounded :
      (id : ℕ) (e : Enrollment)
      → find_enrollment id school.enrollments ≡ some e
      → length (attempts_of school id) ≤ attempts_allowed e

-- What a test says of the new head of a list.
pub keep-head-true {ℓ} :
    {A : Type ℓ} (p : A → Bool) (x : A) (xs : List A) → p x ≡ true → keep p (x ∷ xs) ≡ x ∷ keep p xs
unfolding keep
keep-head-true p x xs h = rw h refl

pub keep-head-false {ℓ} :
    {A : Type ℓ} (p : A → Bool) (x : A) (xs : List A) → p x ≡ false → keep p (x ∷ xs) ≡ keep p xs
unfolding keep
keep-head-false p x xs h = rw h refl

-- The certificates after one more attempt.
abbrev pub more_certificates : Bool → Certificate → List Certificate → List Certificate
more_certificates true c certificates = c ∷ certificates
more_certificates false c certificates = certificates

abbrev pub after : Attempt → Certificate → School → School
after a c school = record school {
  attempts = a ∷ school.attempts;
  certificates = more_certificates a.passed c school.certificates;
}

first_of_none :
    (certificates : List Certificate) → any certificates ≡ false → first certificates ≡ none
first_of_none [] h = refl
first_of_none (c ∷ rest) h = cc h

pub delivrer_lattestation-none :
    (serial : String) (e : Enrollment) (score : ℕ) (school : School)
    → any (certificates_of school e.id) ≡ false
    → delivrer_lattestation serial e score school
      ≡ record school { certificates = new_certificate serial e score ∷ school.certificates }
unfolding delivrer_lattestation
delivrer_lattestation-none serial e score school h =
    let absent : certificate_of school e.id ≡ none =
      unfold certificate_of in first_of_none (certificates_of school e.id) h in
    rw (absent, delivrer_lattestation) refl

pub submit-after :
    (serial : String) (e : Enrollment) (rows : List (Question × List ℕ × Bool)) (numero : ℕ)
    (school : School)
    → any (certificates_of school e.id) ≡ false
    → (submit serial e rows numero school).0
      ≡ after
          (new_attempt e rows numero)
          (new_certificate serial e (new_attempt e rows numero).score)
          school
unfolding submit
submit-after serial e rows numero school h =
    let a = new_attempt e rows numero in
    let written : School = record school { attempts = a ∷ school.attempts } in
    let delivered = delivrer_lattestation-none serial e a.score written h in
    by_verdict a.passed written delivered
  where
    by_verdict :
        (b : Bool) (written : School)
        → delivrer_lattestation serial e (new_attempt e rows numero).score written
          ≡ record written {
            certificates =
                new_certificate serial e (new_attempt e rows numero).score ∷ written.certificates;
          }
        → (if b
            then delivrer_lattestation serial e (new_attempt e rows numero).score written
            else written)
          ≡ record written {
            certificates =
                more_certificates b
                  (new_certificate serial e (new_attempt e rows numero).score)
                  written.certificates;
          }
    by_verdict true written delivered = delivered
    by_verdict false written delivered = refl

-- One more attempt after none that passed.
pub after-Fair :
    (a : Attempt) (c : Certificate) (essais : List Attempt) (certificates : List Certificate)
    → Fair essais certificates
    → a.number ≡ suc (length essais)
    → some_of is_passed essais ≡ false
    → Fair (a ∷ essais) (more_certificates a.passed c certificates)
unfolding some_of
after-Fair a c essais [] h number open_still = elim (Bool-cases a.passed) [
  | inl good ↦ rw good record {
    numbered = (number, h.numbered);
    closed = (open_still, h.closed);
    proved = refl;
    once = omega arith;
  }
  | inr bad ↦ rw bad record {
    numbered = (number, h.numbered);
    closed = (open_still, h.closed);
    proved = open_still;
    once = omega arith;
  }
]
after-Fair a c essais (d ∷ rest) h number open_still = cc (h.proved, open_still)

-- A submission that is taken: who may submit, and what it writes.
abbrev pub Taken : String → Enrollment → List (ℕ × List ℕ) → School → School × QuizResult → Type 0
Taken serial e reponses school out =
    (some_of is_passed (attempts_of school e.id) ≡ false)
    × ((etat_de_session school e).quiz_unlocked ≡ true)
    × (length (attempts_of school e.id) < attempts_allowed e)
    × (submit serial e (detail reponses e.version.questions)
          (suc (length (attempts_of school e.id))) school
        ≡ out)

pub soumettre_le_quiz-Taken :
    (serial : String) (e : Enrollment) (reponses : List (ℕ × List ℕ)) (school : School)
    (out : School × QuizResult)
    → soumettre_le_quiz serial e reponses school ≡ ok out
    → Taken serial e reponses school out
unfolding soumettre_le_quiz etat_de_session
soumettre_le_quiz-Taken serial e reponses school out h =
    (ground (arith, h), ground (arith, h), ground (arith, h), ground (arith, h))
