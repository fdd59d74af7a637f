-- ===== src/Training/Quiz.antt =====
-- backend/apps/training/services.py: how a submission of the quiz ends.
use rssi_as_a_service.Prelude.{
  ℕ, suc, ◌+◌, ◌*◌, ◌≤◌, ◌<◌, String, ◌≡◌, refl, ap, sym, ◌∙◌, subst, Bool, true, false, ◌&&◌, List,
  [], ◌∷◌, Option, none, some, ◌==◌, leb, if◌then◌else◌, length, some_of, count_of, keep, first,
  Result, ok, err, arith, Bool-cases, inl, inr, ==-refl, Result-cases,
}
use rssi_as_a_service.Training.Model.{
  Enrollment, Attempt, Certificate, Question, School, attempts_allowed,
}
use rssi_as_a_service.Training.Session.{
  attempts_of, certificate_of, etat_de_session, soumettre_le_quiz, QuizResult, QuizRefusal, no_quiz,
  already_passed, screens_left, attempts_used_up, unanswered, number_taken, submit, new_attempt,
  new_certificate, detail, justes, answer_to, is_empty, delivrer_lattestation, round_ratio,
}
use rssi_as_a_service.Training.Attempts.{
  delivrer_lattestation-none, keep-head-true, any, IsSound, Numbered, is_passed,
  soumettre_le_quiz-Taken, after, certificates_of,
}
use rssi_as_a_service.Training.Grading.{round_ratio-near}

-- Numbers from 1 without a gap leave the next one free.
next_is_free :
    (essais : List Attempt) (n : ℕ)
    → Numbered essais
    → length essais < n
    → some_of (λ (a : Attempt). a.number == n) essais ≡ false
unfolding some_of
next_is_free [] n h k = refl
next_is_free (a ∷ rest) n h k = ground (arith, h.0, next_is_free rest n h.1 (omega (arith, k)))

number-attempts_of :
    (rows : List Attempt) (id n : ℕ)
    → some_of (λ (a : Attempt). a.enrollment == id && a.number == n) rows
      ≡ some_of (λ (a : Attempt). a.number == n) (keep (λ (a : Attempt). a.enrollment == id) rows)
unfolding some_of keep
number-attempts_of [] id n = refl
number-attempts_of (a ∷ rows) id n = elim (Bool-cases (a.enrollment == id)) [
  | inl mine ↦ rw mine (ground (arith, number-attempts_of rows id n))
  | inr theirs ↦ rw theirs (number-attempts_of rows id n)
]

-- The score of a result is the rounded share of the right answers, it decides alone of the success, and a
-- certificate with the names and the score of the moment comes with a success, and only then.
pub record Graded (serial : String) (e : Enrollment) (rows : List (Question × List ℕ × Bool))
    (r : QuizResult) : Type 0 where
  pub not_below : 2 * (100 * justes rows) ≤ 2 * (length rows * r.score) + length rows
  pub not_above : 2 * (length rows * r.score) ≤ 2 * (100 * justes rows) + length rows
  pub verdict : r.passed ≡ leb e.version.pass_threshold r.score
  pub rewarded : r.passed ≡ true → r.certificate ≡ some (new_certificate serial e r.score)
  pub unrewarded : r.passed ≡ false → r.certificate ≡ none

abbrev missing : Enrollment → List (ℕ × List ℕ) → ℕ
missing e reponses =
    count_of (λ (q : Question). is_empty (answer_to reponses q.id)) e.version.questions

abbrev pub Ended :
    String
    → Enrollment
    → List (ℕ × List ℕ)
    → School
    → Result QuizRefusal (School × QuizResult)
    → Type 0
Ended serial e reponses school (ok (after, r)) =
    Graded serial e (detail reponses e.version.questions) r
    × (r.attempt_number ≡ suc (length (attempts_of school e.id)))
    × (missing e reponses ≡ 0)
    × (length (attempts_of school e.id) < attempts_allowed e)
Ended serial e reponses school (err no_quiz) = length e.version.questions ≡ 0
Ended serial e reponses school (err already_passed) =
    some_of is_passed (attempts_of school e.id) ≡ true
Ended serial e reponses school (err screens_left) = (etat_de_session school e).quiz_unlocked ≡ false
Ended serial e reponses school (err attempts_used_up) =
    attempts_allowed e ≤ length (attempts_of school e.id)
Ended serial e reponses school (err (unanswered n)) = (missing e reponses ≡ n) × (0 < n)
Ended serial e reponses school (err number_taken) = ⊥

err-Ended :
    (serial : String) (e : Enrollment) (reponses : List (ℕ × List ℕ)) (school : School)
    (reason : QuizRefusal)
    → IsSound school
    → soumettre_le_quiz serial e reponses school ≡ err reason
    → Ended serial e reponses school (err reason)
unfolding soumettre_le_quiz etat_de_session
err-Ended serial e reponses school no_quiz sound h = ground (arith, h)
err-Ended serial e reponses school already_passed sound h = ground (arith, h)
err-Ended serial e reponses school screens_left sound h = ground (arith, h)
err-Ended serial e reponses school attempts_used_up sound h = ground (arith, h)
err-Ended serial e reponses school (unanswered n) sound h = ground (arith, h)
err-Ended serial e reponses school number_taken sound h =
    let n = suc (length (attempts_of school e.id)) in
    let free : some_of (λ (a : Attempt). a.enrollment == e.id && a.number == n) school.attempts
        ≡ false =
      number-attempts_of school.attempts e.id n
      ∙ (unfold attempts_of in
          next_is_free (attempts_of school e.id) n ((sound.fair e.id).numbered) (omega arith)) in
    ground (arith, h, free)

certificate_of-new :
    (c : Certificate) (rows : List Certificate) (school : School) (id : ℕ)
    → c.enrollment ≡ id
    → certificate_of (record school { certificates = c ∷ rows }) id ≡ some c
unfolding certificate_of
certificate_of-new c rows school id owner = ap first (
    keep-head-true (λ (x : Certificate). x.enrollment == id) c rows
      (ap (λ k. k == id) owner ∙ ==-refl id))

new_attempt-verdict :
    (e : Enrollment) (rows : List (Question × List ℕ × Bool)) (n : ℕ)
    → ((new_attempt e rows n).score ≡ round_ratio (100 * justes rows) (length rows))
      × ((new_attempt e rows n).passed ≡ leb e.version.pass_threshold (new_attempt e rows n).score)
unfolding new_attempt
new_attempt-verdict e rows n = (refl, refl)

new_certificate-owner :
    (serial : String) (e : Enrollment) (score : ℕ)
    → (new_certificate serial e score).enrollment ≡ e.id
unfolding new_certificate
new_certificate-owner serial e score = refl

abbrev shown : Bool → School → School → ℕ → Option Certificate
shown passed delivered written id =
    if passed then certificate_of (if passed then delivered else written) id else none

shown_if :
    (passed : Bool) (delivered written : School) (id : ℕ)
    → passed ≡ true
    → shown passed delivered written id ≡ certificate_of delivered id
shown_if true delivered written id h = refl
shown_if false delivered written id h = cc h

hidden_if :
    (passed : Bool) (delivered written : School) (id : ℕ)
    → passed ≡ false
    → shown passed delivered written id ≡ none
hidden_if true delivered written id h = cc h
hidden_if false delivered written id h = refl

-- What a submission answers, where no certificate stands.
submit-Graded :
    (serial : String) (e : Enrollment) (rows : List (Question × List ℕ × Bool)) (n : ℕ)
    (school : School)
    → any (certificates_of school e.id) ≡ false
    → 0 < length rows
    → Graded serial e rows (submit serial e rows n school).1
unfolding submit
submit-Graded serial e rows n school unproved some_rows =
    let a = new_attempt e rows n in
    let written : School = record school { attempts = a ∷ school.attempts } in
    let (grade, verdict) = new_attempt-verdict e rows n in
    let (below, above) = round_ratio-near (100 * justes rows) (length rows) some_rows in
    let delivered : School = delivrer_lattestation serial e a.score written in
    let issued : certificate_of delivered e.id ≡ some (new_certificate serial e a.score) =
      ap (λ s. certificate_of s e.id) (delivrer_lattestation-none serial e a.score written unproved)
      ∙ certificate_of-new (new_certificate serial e a.score) school.certificates written e.id
          (new_certificate-owner serial e a.score) in
    record {
      not_below =
          subst (λ s. 2 * (100 * justes rows) ≤ 2 * (length rows * s) + length rows) (sym grade)
            below;
      not_above =
          subst (λ s. 2 * (length rows * s) ≤ 2 * (100 * justes rows) + length rows) (sym grade)
            above;
      verdict = verdict;
      rewarded = λ good. shown_if a.passed delivered written e.id good ∙ issued;
      unrewarded = λ bad. hidden_if a.passed delivered written e.id bad;
    }

length-detail :
    (reponses : List (ℕ × List ℕ)) (questions : List Question)
    → length (detail reponses questions) ≡ length questions
unfolding detail
length-detail reponses [] = refl
length-detail reponses (q ∷ questions) = omega (arith, length-detail reponses questions)

answered :
    (serial : String) (e : Enrollment) (reponses : List (ℕ × List ℕ)) (school : School)
    (out : School × QuizResult)
    → soumettre_le_quiz serial e reponses school ≡ ok out
    → (0 < length e.version.questions) × (missing e reponses ≡ 0)
unfolding soumettre_le_quiz
answered serial e reponses school out h = (ground (arith, h), ground (arith, h))

submit-number :
    (serial : String) (e : Enrollment) (rows : List (Question × List ℕ × Bool)) (n : ℕ)
    (school : School)
    → (submit serial e rows n school).1.attempt_number ≡ n
unfolding submit
submit-number serial e rows n school = refl

ok-Ended :
    (serial : String) (e : Enrollment) (reponses : List (ℕ × List ℕ)) (school : School)
    (out : School × QuizResult)
    → IsSound school
    → soumettre_le_quiz serial e reponses school ≡ ok out
    → Ended serial e reponses school (ok out)
ok-Ended serial e reponses school out sound h =
    let (unpassed, _, fewer, written) = soumettre_le_quiz-Taken serial e reponses school out h in
    let (some_questions, full) = answered serial e reponses school out h in
    let rows = detail reponses e.version.questions in
    let n = suc (length (attempts_of school e.id)) in
    let unproved : any (certificates_of school e.id) ≡ false =
      sym ((sound.fair e.id).proved) ∙ unpassed in
    let graded =
      submit-Graded serial e rows n school unproved
        (omega (arith, some_questions, length-detail reponses e.version.questions)) in
    let number : out.1.attempt_number ≡ n =
      ap (λ (o : School × QuizResult). o.1.attempt_number) (sym written)
      ∙ submit-number serial e rows n school in
    (
      subst (λ (o : School × QuizResult). Graded serial e rows o.1) written graded,
      number,
      full,
      fewer,
    )

-- Where the attempts and the certificates are in order, a submission is refused for a reason that
-- holds and never for its number; or every question is answered and an attempt is left, the score is the
-- rounded share of right answers and decides of the success, and a success brings the certificate.
pub soumettre_le_quiz-Ended :
    (serial : String) (e : Enrollment) (reponses : List (ℕ × List ℕ)) (school : School)
    → IsSound school
    → Ended serial e reponses school (soumettre_le_quiz serial e reponses school)
soumettre_le_quiz-Ended serial e reponses school sound =
    elim (Result-cases (soumettre_le_quiz serial e reponses school)) [
      | inl (out, h) ↦
          subst (Ended serial e reponses school) (sym h)
            (ok-Ended serial e reponses school out sound h)
      | inr (reason, h) ↦
          subst (Ended serial e reponses school) (sym h)
            (err-Ended serial e reponses school reason sound h)
    ]
