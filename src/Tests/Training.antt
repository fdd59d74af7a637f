-- ===== src/Tests/Training.antt =====
-- Concrete runs of a training course.
use rssi_as_a_service.Prelude.{
  ℕ, ◌≡◌, refl, true, false, List, [], ◌∷◌, none, some, arith, keep, some_of, count_of,
}
use rssi_as_a_service.Training.Model.{
  single, multiple, Choice, Screen, Question, Version, Learner, Enrollment, School,
  correct_choice_ids,
}
use rssi_as_a_service.Training.Session.{
  holds, distinct, included, same_set, seen, attempts_of, etat_de_session, corriger, answer_to,
  detail, justes, round_ratio, new_attempt, submit, soumettre_le_quiz, QuizResult, screen_ids,
}
use rssi_as_a_service.Training.Links.{find_token, revoquer}
use rssi_as_a_service.Training.Attempts.{IsSound}
use rssi_as_a_service.Training.Reach.{Reach}
use rssi_as_a_service.Training.Counting.{NoRepeat}
use rssi_as_a_service.Training.Following.{
  OfCourse, Finished, etat_de_session-Finished, Marking, marquer_ecran_vu-Marking,
}
use rssi_as_a_service.Training.Quiz.{Ended, soumettre_le_quiz-Ended}
use rssi_as_a_service.Training.Access.{Dead, revoquer-Dead}

abbrev intro : Screen
intro = record { id = 10; order = 1; title = "Le hameçonnage"; estimated_seconds = 60 }

abbrev habits : Screen
habits = record { id = 11; order = 2; title = "Les réflexes"; estimated_seconds = 90 }

abbrev right : Choice
right = record { id = 1; is_correct = true }

abbrev wrong : Choice
wrong = record { id = 2; is_correct = false }

abbrev also_right : Choice
also_right = record { id = 3; is_correct = true }

abbrev who : Question
who = record {
  id = 20;
  kind = single;
  explanation = "";
  screen = intro;
  choices = right ∷ wrong ∷ [];
}

abbrev what : Question
what = record {
  id = 21;
  kind = multiple;
  explanation = "";
  screen = habits;
  choices = right ∷ wrong ∷ also_right ∷ [];
}

abbrev version : Version
version = record {
  id = 5;
  course = 4;
  course_title = "Hameçonnage";
  number = 1;
  published_at = some 3;
  pass_threshold = 70;
  max_attempts = 3;
  screens = intro ∷ habits ∷ [];
  questions = who ∷ what ∷ [];
}

abbrev ann : Learner
ann = record { id = 7; full_name = "Ann Lee"; email = "ann@a.fr"; is_active = true }

abbrev enrolled : Enrollment
enrolled = record {
  id = 1;
  learner = ann;
  version = version;
  company_name = "Acme";
  due_date = 40;
  token_hash = "t";
  token_issued_at = 2;
  first_opened_at = none;
  revoked_at = none;
  access_requested_at = none;
  extra_attempts = 0;
}

abbrev school : School
school = record {
  learners = ann ∷ [];
  assignments = 4 ∷ [];
  enrollments = enrolled ∷ [];
  progress = record { enrollment = 1; screen = 11 } ∷ record { enrollment = 1; screen = 10 } ∷ [];
  attempts = [];
  certificates = [];
  mails = [];
}

abbrev good : List (ℕ × List ℕ)
good = (20, 1 ∷ []) ∷ (21, 3 ∷ 1 ∷ []) ∷ []

abbrev outcome : School × QuizResult
outcome = submit "2026-A" enrolled (detail good version.questions) 1 school

scores : outcome.1.score ≡ 100
unfolding submit new_attempt round_ratio justes count_of detail corriger same_set included holds
    some_of answer_to correct_choice_ids keep distinct
scores = refl

school-IsSound : IsSound school
unfolding attempts_of keep some_of
school-IsSound = record {
  fair = λ id. record { numbered = tt; closed = tt; proved = refl; once = omega arith };
  bounded = λ id e f. omega arith;
}

soumettre_le_quiz-Ended_example :
    Ended "2026-A" enrolled good school (soumettre_le_quiz "2026-A" enrolled good school)
soumettre_le_quiz-Ended_example =
    soumettre_le_quiz-Ended "2026-A" enrolled good school school-IsSound

distinct_screens : NoRepeat (screen_ids enrolled)
unfolding holds some_of
distinct_screens = (refl, (refl, tt))

of_course : OfCourse school enrolled
unfolding seen keep distinct holds some_of
of_course = (refl, (refl, tt))

etat_de_session-Finished_example :
    ((etat_de_session school enrolled).quiz_unlocked ≡ true → Finished school enrolled)
    × (Finished school enrolled → (etat_de_session school enrolled).quiz_unlocked ≡ true)
etat_de_session-Finished_example =
    etat_de_session-Finished school enrolled distinct_screens of_course

marquer_ecran_vu-Marking_example : Marking school enrolled 10
marquer_ecran_vu-Marking_example = marquer_ecran_vu-Marking school enrolled 10 of_course

by_token : find_token "t" school.enrollments ≡ some enrolled
unfolding find_token
by_token = refl

revoquer-Dead_example : Dead (λ t. t) (λ day. day) 7 "t" 30 (revoquer 20 enrolled school)
revoquer-Dead_example = revoquer-Dead (λ t. t) (λ day. day) 7 "t" 20 30 enrolled school by_token
