-- ===== src/AccessRequests/Subjects.antt =====
-- backend/apps/access_requests/subjects.py: what a client may ask for.
use rssi_as_a_service.Prelude.{
  ℕ, String, Bool, false, List, [], ◌∷◌, Option, none, some, str_eq, if◌then◌else◌, Result, ok, err,
}
use rssi_as_a_service.Billing.Features as F
use rssi_as_a_service.Billing.Model.{Tenant}
use rssi_as_a_service.Billing.Entitlements.{has_feature}
use rssi_as_a_service.Assessments.{
  Shelf, AssignmentError, get_referential, is_granted, assign_referential,
}
use rssi_as_a_service.AccessRequests.Model.{Desk, AccessRequestError, assignment_refused}

abbrev pub Grant : Type 0
Grant = Tenant → String → Option ℕ → ℕ → Desk → Result AccessRequestError Desk

pub record Subject : Type 0 where
  pub key : String
  pub describe : String → Desk → Option String
  pub is_held : Tenant → String → Desk → Bool
  pub grant : Option Grant

abbrev pub referential : String
referential = "referential"

abbrev pub feature : String
feature = "feature"

-- The labels of the registry of features.
unfoldable pub labels : List (String × String)
labels =
    (F.assistant, "Assistant conversationnel")
    ∷ (F.exposure_synthesis, "Synthèse d'exposition")
    ∷ (F.pdf_export, "Export PDF des documents")
    ∷ (F.reuse_correlation, "Corrélation de réutilisation")
    ∷ (F.secret_reveal, "Révélation de mot de passe")
    ∷ (F.anssi_assessment, "Diagnostic de maturité")
    ∷ (F.charter_generation, "Génération de charte informatique")
    ∷ (F.watched_accounts, "Surveillance de comptes désignés")
    ∷ (F.realtime_monitoring, "Surveillance en temps réel")
    ∷ (F.training, "Formation des salariés")
    ∷ (F.training_studio, "Studio de formation")
    ∷ []

unfoldable pub find_label : String → List (String × String) → Option String
find_label key [] = none
find_label key ((k, label) ∷ rest) =
    let later = find_label key rest in if str_eq k key then some label else later

unfoldable pub describe_referential : String → Desk → Option String
describe_referential key desk = elim (get_referential key desk.shelf) [
  | none ↦ none
  | some r ↦ some r.name
]

unfoldable pub referential_is_held : Tenant → String → Desk → Bool
referential_is_held tenant key desk = elim (get_referential key desk.shelf) [
  | none ↦ false
  | some r ↦ is_granted tenant.id r desk.shelf
]

abbrev pub assigned : Desk → Result AssignmentError Shelf → Result AccessRequestError Desk
assigned desk (ok shelf) = ok (record desk { shelf = shelf })
assigned desk (err e) = err (assignment_refused e)

abbrev pub grant_note : String
grant_note = "Attribué en réponse à une demande du client."

unfoldable pub grant_referential : Grant
grant_referential tenant key actor now desk = elim (get_referential key desk.shelf) [
  | none ↦ ok desk
  | some r ↦ assigned desk (
      assign_referential tenant.id r actor "Attribué en réponse à une demande du client." now
        desk.shelf)
]

unfoldable pub describe_feature : String → Desk → Option String
unfolding find_label labels
describe_feature key desk = find_label key labels

unfoldable pub feature_is_held : Tenant → String → Desk → Bool
feature_is_held tenant key desk = has_feature tenant.id key desk.billing

unfoldable pub registry : List Subject
registry =
    record {
      key = referential;
      describe = describe_referential;
      is_held = referential_is_held;
      grant = some grant_referential;
    }
    ∷ record { key = feature; describe = describe_feature; is_held = feature_is_held; grant = none }
    ∷ []

unfoldable pub find_subject : String → List Subject → Option Subject
find_subject key [] = none
find_subject key (s ∷ rest) =
    let later = find_subject key rest in if str_eq s.key key then some s else later

-- `subjects.get`
unfoldable pub get_subject : String → Option Subject
unfolding find_subject registry
get_subject key = find_subject key registry
