-- ===== src/Training/Model.antt =====
-- backend/apps/training/models.py: the rows of the courses and of their use by one client. An identifier
-- is a number; `learner` and `version` are the joined rows of `select_related`.
use rssi_as_a_service.Prelude.{
  ℕ, ◌+◌, String, Bool, true, false, ◌&&◌, not, List, Option, none, some, ltb, keep, map, first,
  sort_by, leb,
}

pub data QuestionKind : Type 0 where
  single multiple : QuestionKind

pub record Choice : Type 0 where
  pub id : ℕ
  pub is_correct : Bool

pub record Screen : Type 0 where
  pub id : ℕ
  pub order : ℕ
  pub title : String
  pub estimated_seconds : ℕ

pub record Question : Type 0 where
  pub id : ℕ
  pub kind : QuestionKind
  pub explanation : String
  pub screen : Screen
  pub choices : List Choice

pub record Version : Type 0 where
  pub id : ℕ
  pub course : ℕ
  pub course_title : String
  pub number : ℕ
  pub published_at : Option ℕ
  pub pass_threshold : ℕ
  pub max_attempts : ℕ
  pub screens : List Screen
  pub questions : List Question

pub record Course : Type 0 where
  pub id : ℕ
  pub title : String
  pub is_active : Bool
  pub owner_tenant : Option ℕ
  pub versions : List Version

pub record Learner : Type 0 where
  pub id : ℕ
  pub full_name : String
  pub email : String
  pub is_active : Bool

pub record Enrollment : Type 0 where
  pub id : ℕ
  pub learner : Learner
  pub version : Version
  pub company_name : String
  pub due_date : ℕ
  pub token_hash : String
  pub token_issued_at : ℕ
  pub first_opened_at : Option ℕ
  pub revoked_at : Option ℕ
  pub access_requested_at : Option ℕ
  pub extra_attempts : ℕ

pub record ScreenProgress : Type 0 where
  pub enrollment : ℕ
  pub screen : ℕ

pub record AttemptAnswer : Type 0 where
  pub question : ℕ
  pub selected_choice_ids : List ℕ
  pub is_correct : Bool

pub record Attempt : Type 0 where
  pub enrollment : ℕ
  pub number : ℕ
  pub score : ℕ
  pub passed : Bool
  pub answers : List AttemptAnswer

pub record Certificate : Type 0 where
  pub enrollment : ℕ
  pub serial : String
  pub learner_name : String
  pub course_title : String
  pub course_version : ℕ
  pub company_name : String
  pub score : ℕ

-- The tables of one client, the newest rows first, and the enrolments of which the administrators were
-- told by mail that their learner asks for an access.
pub record School : Type 0 where
  pub learners : List Learner
  pub assignments : List ℕ
  pub enrollments : List Enrollment
  pub progress : List ScreenProgress
  pub attempts : List Attempt
  pub certificates : List Certificate
  pub mails : List ℕ

abbrev pub is_none : Option ℕ → Bool
is_none none = true
is_none (some _) = false

-- Published versions, the highest number first.
unfoldable pub published_version : Course → Option Version
published_version course = first (
    sort_by (λ (a b : Version). leb b.number a.number)
      (keep (λ (v : Version). not (is_none v.published_at)) course.versions))

unfoldable pub correct_choice_ids : Question → List ℕ
correct_choice_ids q = map (λ (c : Choice). c.id) (keep (λ (c : Choice). c.is_correct) q.choices)

unfoldable pub is_revoked : Enrollment → Bool
is_revoked e = not (is_none e.revoked_at)

unfoldable pub attempts_allowed : Enrollment → ℕ
attempts_allowed e = e.version.max_attempts + e.extra_attempts

-- `end_of` gives the last moment of a day in the zone of the settings; MARGE_APRES_ECHEANCE_JOURS is
-- `margin`.
unfoldable pub expires_at : (ℕ → ℕ) → ℕ → Enrollment → ℕ
expires_at end_of margin e = end_of (e.due_date + margin)

unfoldable pub is_expired : (ℕ → ℕ) → ℕ → ℕ → Enrollment → Bool
is_expired end_of margin now e = ltb (expires_at end_of margin e) now

unfoldable pub is_usable : (ℕ → ℕ) → ℕ → ℕ → Enrollment → Bool
is_usable end_of margin now e =
    not (is_revoked e) && (not (is_expired end_of margin now e) && e.learner.is_active)
