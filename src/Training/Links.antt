-- ===== src/Training/Links.antt =====
-- backend/apps/training/services.py: the learners, the courses of a client, and the nominative links. The
-- digest of a token is a parameter; a fresh token and a fresh identifier come as arguments.
use rssi_as_a_service.Prelude.{
  ℕ, ◌+◌, ◌/◌, String, Bool, true, false, ◌&&◌, not, List, [], ◌∷◌, Option, none, some, ◌==◌,
  str_eq, if◌then◌else◌, keep, some_of, leb, count_of, Result, ok, guard, ◌>>=◌, ◌>>◌, or_raise,
}
use rssi_as_a_service.Training.Model.{
  Learner, Course, Enrollment, School, is_revoked, is_usable, published_version,
}

pub data TrainingError : Type 0 where
  session_introuvable learner_known learner_inactive course_not_offered no_version already_enrolled
        link_revoked too_few_attempts token_taken :
      TrainingError

abbrev pub is_absent {ℓ} : {A : Type ℓ} → Option A → Bool
is_absent none = true
is_absent (some _) = false

-- `Enrollment.objects.filter(id=…).first()`
unfoldable pub find_enrollment : ℕ → List Enrollment → Option Enrollment
find_enrollment id [] = none
find_enrollment id (e ∷ rows) =
    let rest = find_enrollment id rows in if e.id == id then some e else rest

unfoldable pub find_token : String → List Enrollment → Option Enrollment
find_token hashed [] = none
find_token hashed (e ∷ rows) =
    let rest = find_token hashed rows in if str_eq e.token_hash hashed then some e else rest

unfoldable pub change_enrollment : (Enrollment → Enrollment) → ℕ → List Enrollment → List Enrollment
change_enrollment change id [] = []
change_enrollment change id (e ∷ rows) =
    let rest = change_enrollment change id rows in if e.id == id then change e ∷ rest else e ∷ rest

-- A save of the named fields of the row of this key.
unfoldable pub save_enrollment : (Enrollment → Enrollment) → ℕ → School → School
save_enrollment change id school = record school {
  enrollments = change_enrollment change id school.enrollments;
}

unfoldable pub learner_of : String → List Learner → Option Learner
learner_of email [] = none
learner_of email (l ∷ rows) =
    let rest = learner_of email rows in if str_eq l.email email then some l else rest

-- `email.strip().lower()` and `full_name.strip()` are parameters.
unfoldable pub creer_apprenant :
    (String → String)
    → (String → String)
    → ℕ
    → String
    → String
    → School
    → Result TrainingError (Learner × School)
creer_apprenant lowered strip id full_name email school = do
  guard (is_absent (learner_of (lowered email) school.learners)) learner_known
  let learner : Learner = record {
    id = id;
    full_name = strip full_name;
    email = lowered email;
    is_active = true;
  }
  ok (learner, record school { learners = learner ∷ school.learners })

unfoldable pub is_offered : ℕ → School → Bool
is_offered course school = some_of (λ c. c == course) school.assignments

unfoldable pub attribuer_cours : ℕ → School → School
attribuer_cours course school =
    if is_offered course school
    then school
    else record school { assignments = course ∷ school.assignments }

unfoldable pub retirer_cours : ℕ → School → School × Bool
retirer_cours course school = (
  record school { assignments = keep (λ c. not (c == course)) school.assignments },
  is_offered course school,
)

unfoldable pub inscriptions_en_cours : ℕ → School → ℕ
inscriptions_en_cours course school =
    count_of (λ (e : Enrollment). e.version.course == course && not (is_revoked e))
      school.enrollments

-- An enrolment of this learner to this version that was not withdrawn.
unfoldable pub is_live : ℕ → ℕ → Enrollment → Bool
is_live learner version e =
    e.learner.id == learner && (e.version.id == version && not (is_revoked e))

unfoldable pub opened_at : ℕ → Option ℕ → Option ℕ
opened_at now none = some now
opened_at now (some before) = some before

-- The day of a moment, in UTC.
unfoldable pub asked_on : ℕ → Option ℕ → Bool
asked_on day none = false
asked_on day (some before) = before / 86400000000 == day

module _ (hacher : String → String) where
  unfoldable pub inscrire :
      ℕ
      → String
      → String
      → ℕ
      → Learner
      → Course
      → ℕ
      → School
      → Result TrainingError (Enrollment × School)
  inscrire id brut company now learner course due_date school = do
    guard learner.is_active learner_inactive
    guard (is_offered course.id school) course_not_offered
    version ← or_raise (published_version course) no_version
    guard (not (some_of (is_live learner.id version.id) school.enrollments)) already_enrolled
    guard (is_absent (find_token (hacher brut) school.enrollments)) token_taken
    let inscription : Enrollment = record {
      id = id;
      learner = learner;
      version = version;
      company_name = company;
      due_date = due_date;
      token_hash = hacher brut;
      token_issued_at = now;
      first_opened_at = none;
      revoked_at = none;
      access_requested_at = none;
      extra_attempts = 0;
    }
    ok (inscription, record school { enrollments = inscription ∷ school.enrollments })

  unfoldable pub renouveler_le_lien : String → ℕ → Enrollment → School → Result TrainingError School
  renouveler_le_lien brut now e school = do
    guard (not (is_revoked e)) link_revoked
    guard (is_absent (find_token (hacher brut) school.enrollments)) token_taken
    ok (
        save_enrollment (λ row. record row { token_hash = hacher brut; token_issued_at = now }) e.id
          school)

  unfoldable pub resoudre_session :
      (ℕ → ℕ) → ℕ → ℕ → String → School → Result TrainingError (Enrollment × School)
  resoudre_session end_of margin now jeton school = do
    guard (not (str_eq jeton "")) session_introuvable
    e ← or_raise (find_token (hacher jeton) school.enrollments) session_introuvable
    guard (is_usable end_of margin now e) session_introuvable
    let change : Enrollment → Enrollment =
        λ row. record row { first_opened_at = opened_at now e.first_opened_at }
    ok (change e, save_enrollment change e.id school)

  unfoldable pub demander_un_acces : ℕ → String → School → Result TrainingError (Bool × School)
  demander_un_acces now jeton school = do
    e ← or_raise (find_token (hacher jeton) school.enrollments) session_introuvable
    guard (not (is_revoked e) && e.learner.is_active) session_introuvable
    let told : School = record school { mails = e.id ∷ school.mails }
    ok (
        if asked_on (now / 86400000000) e.access_requested_at then (false, school) else (
          true,
          save_enrollment (λ row. record row { access_requested_at = some now }) e.id told,
        ))

unfoldable pub revoquer : ℕ → Enrollment → School → School
revoquer now e school =
    if is_revoked e
    then school
    else save_enrollment (λ row. record row { revoked_at = some now }) e.id school

unfoldable pub accorder_des_essais : ℕ → Enrollment → School → Result TrainingError School
accorder_des_essais nombre e school = do
  guard (leb 1 nombre) too_few_attempts
  let granted : ℕ = e.extra_attempts + nombre
  ok (save_enrollment (λ row. record row { extra_attempts = granted }) e.id school)
