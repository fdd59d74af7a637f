-- ===== src/Training/Session.antt =====
-- backend/apps/training/services.py: the course that a learner follows, its screens and its quiz.
use rssi_as_a_service.Prelude.{
  ℕ, suc, ◌-◌, ◌*◌, ◌/◌, ◌%◌, String, Bool, true, false, ◌&&◌, not, List, [], ◌∷◌, Option, none,
  some, ◌==◌, ltb, leb, if◌then◌else◌, keep, map, length, some_of, count_of, first, sort_by, Result,
  ok, guard, ◌>>◌,
}
use rssi_as_a_service.Training.Model.{
  single, multiple, QuestionKind, Screen, Question, Enrollment, ScreenProgress, AttemptAnswer,
  Attempt, Certificate, School, correct_choice_ids, attempts_allowed,
}

pub data QuizRefusal : Type 0 where
  no_quiz already_passed screens_left attempts_used_up : QuizRefusal
  unanswered : ℕ → QuizRefusal
  number_taken : QuizRefusal

-- `x in xs`
unfoldable pub holds : List ℕ → ℕ → Bool
holds xs n = some_of (λ x. x == n) xs

-- The elements of a set, each once.
unfoldable pub distinct : List ℕ → List ℕ
distinct [] = []
distinct (x ∷ xs) = let rest = distinct xs in if holds xs x then rest else x ∷ rest

unfoldable pub included : List ℕ → List ℕ → Bool
included [] ys = true
included (x ∷ xs) ys = holds ys x && included xs ys

-- Equality of the sets that two lists stand for.
unfoldable pub same_set : List ℕ → List ℕ → Bool
same_set xs ys = included xs ys && included ys xs

abbrev pub is_empty : List ℕ → Bool
is_empty [] = true
is_empty (_ ∷ _) = false

-- The screens seen, `vus`, and the attempts, `essais`.
unfoldable pub seen : School → Enrollment → List ℕ
seen school e = distinct (
    map (λ (p : ScreenProgress). p.screen)
      (keep (λ (p : ScreenProgress). p.enrollment == e.id) school.progress))

unfoldable pub attempts_of : School → ℕ → List Attempt
attempts_of school id = keep (λ (a : Attempt). a.enrollment == id) school.attempts

unfoldable pub certificate_of : School → ℕ → Option Certificate
certificate_of school id =
    first (keep (λ (c : Certificate). c.enrollment == id) school.certificates)

abbrev pub screen_ids : Enrollment → List ℕ
screen_ids e = map (λ (s : Screen). s.id) e.version.screens

-- The first screen that is not seen; the last one when there is none.
unfoldable pub first_unseen : List ℕ → List ℕ → ℕ → ℕ
first_unseen vus [] position = position - 1
first_unseen vus (screen ∷ rest) position =
    let later = first_unseen vus rest (suc position) in if holds vus screen then later else position

-- What the other operations and the client's page read of the state.
pub record SessionState : Type 0 where
  pub screens_total : ℕ
  pub screens_completed : ℕ
  pub resume_index : ℕ
  pub quiz_unlocked : Bool
  pub attempts_used : ℕ
  pub allowed : ℕ
  pub passed : Bool
  pub certificate : Option Certificate

unfoldable pub etat_de_session : School → Enrollment → SessionState
etat_de_session school e =
    let ids = screen_ids e in
    let vus = seen school e in
    let essais = attempts_of school e.id in
    record {
      screens_total = length ids;
      screens_completed = length vus;
      resume_index = first_unseen vus ids 0;
      quiz_unlocked = not (is_empty ids) && leb (length ids) (length vus);
      attempts_used = length essais;
      allowed = attempts_allowed e;
      passed = some_of (λ (a : Attempt). a.passed) essais;
      certificate = certificate_of school e.id;
    }

-- `get_or_create`; `none` where the screen is not one of the course.
unfoldable pub marquer_ecran_vu : School → Enrollment → ℕ → Option (School × SessionState)
marquer_ecran_vu school e screen =
    let row : ScreenProgress = record { enrollment = e.id; screen = screen } in
    let school' : School =
      if some_of (λ (p : ScreenProgress). p.enrollment == e.id && p.screen == screen)
        school.progress
      then school
      else record school { progress = row ∷ school.progress } in
    if holds (screen_ids e) screen then some (school', etat_de_session school' e) else none

abbrev pub is_single : QuestionKind → Bool
is_single single = true
is_single multiple = false

unfoldable pub corriger : Question → List ℕ → List ℕ → Bool
corriger q choisis attendus =
    not (is_single q.kind && not (length (distinct choisis) == 1))
    && (not (is_empty choisis) && same_set choisis attendus)

-- `reponses.get(str(question.id), [])`
unfoldable pub answer_to : List (ℕ × List ℕ) → ℕ → List ℕ
answer_to [] question = []
answer_to ((key, chosen) ∷ rest) question =
    let later = answer_to rest question in if key == question then chosen else later

unfoldable pub detail : List (ℕ × List ℕ) → List Question → List (Question × List ℕ × Bool)
detail reponses [] = []
detail reponses (q ∷ questions) =
    let choisis = answer_to reponses q.id in
    (q, choisis, corriger q choisis (correct_choice_ids q)) ∷ detail reponses questions

unfoldable pub justes : List (Question × List ℕ × Bool) → ℕ
justes rows = count_of (λ (row : Question × List ℕ × Bool). row.2) rows

-- `round(a / n)`, to the even neighbour from the middle.
unfoldable pub round_ratio : ℕ → ℕ → ℕ
round_ratio a n =
    let q = a / n in
    let r = a % n in
    if ltb (2 * r) n then q else if ltb n (2 * r) then suc q else if q % 2 == 0 then q else suc q

unfoldable pub answers : List (Question × List ℕ × Bool) → List AttemptAnswer
answers [] = []
answers ((q, choisis, correct) ∷ rest) =
    record {
      question = q.id;
      selected_choice_ids = sort_by leb (distinct choisis);
      is_correct = correct;
    }
    ∷ answers rest

-- The names of the moment, frozen.
unfoldable pub new_certificate : String → Enrollment → ℕ → Certificate
new_certificate serial e score = record {
  enrollment = e.id;
  serial = serial;
  learner_name = e.learner.full_name;
  course_title = e.version.course_title;
  course_version = e.version.number;
  company_name = e.company_name;
  score = score;
}

-- `_delivrer_lattestation`: one stands already, or one is made.
unfoldable pub delivrer_lattestation : String → Enrollment → ℕ → School → School
delivrer_lattestation serial e score school = elim (certificate_of school e.id) [
  | some _ ↦ school
  | none ↦ record school { certificates = new_certificate serial e score ∷ school.certificates }
]

unfoldable pub new_attempt : Enrollment → List (Question × List ℕ × Bool) → ℕ → Attempt
new_attempt e rows numero =
    let score = round_ratio (100 * justes rows) (length rows) in
    record {
      enrollment = e.id;
      number = numero;
      score = score;
      passed = leb e.version.pass_threshold score;
      answers = answers rows;
    }

pub record QuizResult : Type 0 where
  pub score : ℕ
  pub passed : Bool
  pub attempt_number : ℕ
  pub certificate : Option Certificate

unfoldable pub submit :
    String → Enrollment → List (Question × List ℕ × Bool) → ℕ → School → School × QuizResult
submit serial e rows numero school =
    let tentative : Attempt = new_attempt e rows numero in
    let written : School = record school { attempts = tentative ∷ school.attempts } in
    let delivered : School = delivrer_lattestation serial e tentative.score written in
    let final : School = if tentative.passed then delivered else written in
    (
      final,
      record {
        score = tentative.score;
        passed = tentative.passed;
        attempt_number = numero;
        certificate = if tentative.passed then certificate_of final e.id else none;
      },
    )

-- The unique pair of an enrolment and a number refuses an attempt whose number is taken.
unfoldable pub soumettre_le_quiz :
    String → Enrollment → List (ℕ × List ℕ) → School → Result QuizRefusal (School × QuizResult)
soumettre_le_quiz serial e reponses school = do
  let etat = etat_de_session school e
  let questions = e.version.questions
  let manquantes = count_of (λ (q : Question). is_empty (answer_to reponses q.id)) questions
  let numero = suc etat.attempts_used
  guard (not (length questions == 0)) no_quiz
  guard (not etat.passed) already_passed
  guard etat.quiz_unlocked screens_left
  guard (ltb etat.attempts_used etat.allowed) attempts_used_up
  guard (manquantes == 0) (unanswered manquantes)
  guard
      (not (some_of (λ (a : Attempt). a.enrollment == e.id && a.number == numero) school.attempts))
      number_taken
  ok (submit serial e (detail reponses questions) numero school)
