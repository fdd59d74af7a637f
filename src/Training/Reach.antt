-- ===== src/Training/Reach.antt =====
-- backend/apps/training: the attempts and the certificates over any sequence of operations.
use rssi_as_a_service.Prelude.{ℕ, String, ◌≡◌, List, [], some, ok}
use rssi_as_a_service.Training.Model.{Learner, Course, Enrollment, School}
use rssi_as_a_service.Training.Session.{
  attempts_of, soumettre_le_quiz, QuizResult, marquer_ecran_vu, SessionState,
}
use rssi_as_a_service.Training.Links.{
  find_enrollment, revoquer, accorder_des_essais, inscrire, renouveler_le_lien, resoudre_session,
}

module _ (hacher : String → String) (end_of : ℕ → ℕ) (margin : ℕ) where
  -- One operation on the enrolments of a client, each on a row as it stands in the table.
  pub data Step : School → School → Type 0 where
    submits :
        (serial : String) (e : Enrollment) (reponses : List (ℕ × List ℕ)) {school : School}
        {out : School × QuizResult}
        → find_enrollment e.id school.enrollments ≡ some e
        → soumettre_le_quiz serial e reponses school ≡ ok out
        → Step school out.0
    sees :
        (e : Enrollment) (screen : ℕ) {school : School} {out : School × SessionState}
        → marquer_ecran_vu school e screen ≡ some out
        → Step school out.0
    grants :
        (nombre : ℕ) (e : Enrollment) {school after : School}
        → find_enrollment e.id school.enrollments ≡ some e
        → accorder_des_essais nombre e school ≡ ok after
        → Step school after
    withdraws : (now : ℕ) (e : Enrollment) {school : School} → Step school (revoquer now e school)
    renews :
        (brut : String) (now : ℕ) (e : Enrollment) {school after : School}
        → renouveler_le_lien hacher brut now e school ≡ ok after
        → Step school after
    visits :
        (now : ℕ) (jeton : String) {school : School} {out : Enrollment × School}
        → resoudre_session hacher end_of margin now jeton school ≡ ok out
        → Step school out.1
    enrols :
        (id : ℕ) (brut company : String) (now : ℕ) (learner : Learner) (course : Course)
        (due_date : ℕ) {school : School} {out : Enrollment × School}
        → attempts_of school id ≡ []
        → inscrire hacher id brut company now learner course due_date school ≡ ok out
        → Step school out.1

  pub data Reach : School → School → Type 0 where
    here : {school : School} → Reach school school
    next : {a b c : School} → Step a b → Reach b c → Reach a c
