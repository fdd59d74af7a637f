-- ===== src/Training/Steps.antt =====
-- backend/apps/training/services.py: each operation keeps the attempts and the certificates in order.
use rssi_as_a_service.Prelude.{
  ℕ, suc, ◌+◌, ◌≤◌, String, ◌≡◌, refl, ap, sym, ◌∙◌, subst, Bool, List, [], ◌∷◌, some, length, ok,
  arith, Bool-cases, Option-cases, inl, inr,
}
use rssi_as_a_service.Training.Model.{
  Learner, Course, Enrollment, Question, ScreenProgress, School, attempts_allowed, is_revoked,
  published_version,
}
use rssi_as_a_service.Training.Session.{
  attempts_of, soumettre_le_quiz, QuizResult, new_attempt, new_certificate, marquer_ecran_vu,
  detail, SessionState,
}
use rssi_as_a_service.Training.Links.{
  find_enrollment, save_enrollment, revoquer, accorder_des_essais, inscrire, renouveler_le_lien,
  resoudre_session, find_token, opened_at,
}
use rssi_as_a_service.Training.Attempts.{IsSound, soumettre_le_quiz-Taken, submit-after, after}
use rssi_as_a_service.Training.Rows.{save-IsSound, after-IsSound, enrolled-IsSound}

certificate_enrollment :
    (serial : String) (e : Enrollment) (score : ℕ)
    → (new_certificate serial e score).enrollment ≡ e.id
unfolding new_certificate
certificate_enrollment serial e score = refl

attempt_enrollment :
    (e : Enrollment) (rows : List (Question × List ℕ × Bool)) (n : ℕ)
    → ((new_attempt e rows n).enrollment ≡ e.id) × ((new_attempt e rows n).number ≡ n)
unfolding new_attempt
attempt_enrollment e rows n = (refl, refl)

pub submits-IsSound :
    (serial : String) (e : Enrollment) (reponses : List (ℕ × List ℕ)) (school : School)
    (out : School × QuizResult)
    → find_enrollment e.id school.enrollments ≡ some e
    → soumettre_le_quiz serial e reponses school ≡ ok out
    → IsSound school
    → IsSound out.0
submits-IsSound serial e reponses school out found taken h =
    let (unpassed, _, fewer, written) =
      soumettre_le_quiz-Taken serial e reponses school out taken in
    let n = suc (length (attempts_of school e.id)) in
    let rows = detail reponses e.version.questions in
    let a = new_attempt e rows n in
    let c = new_certificate serial e a.score in
    let tables : after a c school ≡ out.0 =
      sym (submit-after serial e rows n school (sym ((h.fair e.id).proved) ∙ unpassed))
      ∙ ap (λ (o : School × QuizResult). o.0) written in
    let (owner, number) = attempt_enrollment e rows n in
    subst IsSound tables (
      after-IsSound a c e school owner (certificate_enrollment serial e a.score) number unpassed
        fewer found h)

progress-IsSound :
    (school : School) (rows : List ScreenProgress)
    → IsSound school
    → IsSound (record school { progress = rows })
unfolding attempts_of
progress-IsSound school rows h = record { fair = h.fair; bounded = h.bounded }

pub sees-IsSound :
    (e : Enrollment) (screen : ℕ) (school : School) (out : School × SessionState)
    → marquer_ecran_vu school e screen ≡ some out
    → IsSound school
    → IsSound out.0
unfolding marquer_ecran_vu
sees-IsSound e screen school out h sound =
    let written : record school { progress = out.0.progress } ≡ out.0 = ground (arith, h) in
    subst IsSound written (progress-IsSound school out.0.progress sound)

pub grants-IsSound :
    (nombre : ℕ) (e : Enrollment) (school after : School)
    → find_enrollment e.id school.enrollments ≡ some e
    → accorder_des_essais nombre e school ≡ ok after
    → IsSound school
    → IsSound after
unfolding accorder_des_essais
grants-IsSound nombre e school after found h sound =
    let granted = e.extra_attempts + nombre in
    let written : save_enrollment (λ row. record row { extra_attempts = granted }) e.id school
        ≡ after =
      ground (arith, h) in
    subst IsSound written (
      save-IsSound (λ row. record row { extra_attempts = granted }) e.id school (λ x. refl)
        (λ old f.
          let one : e ≡ old = cc (found, f) in
          subst (λ x. attempts_allowed x ≤ attempts_allowed (record x { extra_attempts = granted }))
            one (unfold attempts_allowed in omega arith))
        sound)

pub withdraws-IsSound :
    (now : ℕ) (e : Enrollment) (school : School) → IsSound school → IsSound (revoquer now e school)
unfolding revoquer attempts_allowed
withdraws-IsSound now e school h = elim (Bool-cases (is_revoked e)) [
  | inl gone ↦ rw gone h
  | inr live ↦ rw live (
      save-IsSound (λ row. record row { revoked_at = some now }) e.id school (λ x. refl)
        (λ old f. omega arith) h)
]

module _ (hacher : String → String) where
  pub renews-IsSound :
      (brut : String) (now : ℕ) (e : Enrollment) (school after : School)
      → renouveler_le_lien hacher brut now e school ≡ ok after
      → IsSound school
      → IsSound after
  unfolding renouveler_le_lien attempts_allowed
  renews-IsSound brut now e school after h sound =
      let change : Enrollment → Enrollment =
        λ row. record row { token_hash = hacher brut; token_issued_at = now } in
      let written : save_enrollment change e.id school ≡ after = ground (arith, h) in
      subst IsSound written
        (save-IsSound change e.id school (λ x. refl) (λ old f. omega arith) sound)

  pub visits-IsSound :
      (end_of : ℕ → ℕ) (margin now : ℕ) (jeton : String) (school : School)
      (out : Enrollment × School)
      → resoudre_session hacher end_of margin now jeton school ≡ ok out
      → IsSound school
      → IsSound out.1
  unfolding resoudre_session attempts_allowed
  visits-IsSound end_of margin now jeton school out h sound =
      elim (Option-cases (find_token (hacher jeton) school.enrollments)) [
        | inl missing ↦ ground (arith, h, missing)
        | inr (e, found) ↦
            let change : Enrollment → Enrollment =
              λ row. record row { first_opened_at = opened_at now e.first_opened_at } in
            let written : save_enrollment change e.id school ≡ out.1 = ground (arith, h, found) in
            subst IsSound written
              (save-IsSound change e.id school (λ x. refl) (λ old f. omega arith) sound)
      ]

  pub enrols-IsSound :
      (id : ℕ) (brut company : String) (now : ℕ) (learner : Learner) (course : Course)
      (due_date : ℕ) (school : School) (out : Enrollment × School)
      → attempts_of school id ≡ []
      → inscrire hacher id brut company now learner course due_date school ≡ ok out
      → IsSound school
      → IsSound out.1
  unfolding inscrire
  enrols-IsSound id brut company now learner course due_date school out unused h sound =
      elim (Option-cases (published_version course)) [
        | inl missing ↦ ground (arith, h, missing)
        | inr (version, found) ↦
            let written : record school { enrollments = out.0 ∷ school.enrollments } ≡ out.1 =
              ground (arith, h, found) in
            let key : out.0.id ≡ id = ground (arith, h, found) in
            subst IsSound written (
              enrolled-IsSound out.0 school
                (subst (λ k. attempts_of school k ≡ []) (sym key) unused) sound)
      ]
