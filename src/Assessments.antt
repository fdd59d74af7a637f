-- ===== src/Assessments.antt =====
-- backend/apps/assessments/services.py, the attribution of the referentials to the clients. The
-- evaluations themselves are not modelled.
use rssi_as_a_service.Prelude.{
  ℕ, String, Bool, true, false, ◌&&◌, not, List, [], ◌∷◌, Option, none, some, ◌==◌, str_eq,
  if◌then◌else◌, some_of, keep, Result, ok, err, first,
}

pub record Referential : Type 0 where
  pub id : ℕ
  pub slug : String
  pub name : String
  pub owner_tenant : Option ℕ
  pub is_active : Bool

-- The client and the referential stand by their keys.
pub record ReferentialAssignment : Type 0 where
  pub tenant : ℕ
  pub referential : ℕ
  pub granted_at : ℕ
  pub granted_by : Option ℕ
  pub revoked_at : Option ℕ
  pub revoked_by : Option ℕ
  pub note : String

pub data AssignmentError : Type 0 where
  owned_by_another : String → AssignmentError

pub record Shelf : Type 0 where
  pub referentials : List Referential
  pub assignments : List ReferentialAssignment

-- `get_referential(slug=…)`: slugs are unique.
unfoldable pub get_referential : String → Shelf → Option Referential
get_referential slug shelf = first (keep (λ r. str_eq r.slug slug) shelf.referentials)

abbrev pub is_standing : Option ℕ → Bool
is_standing none = true
is_standing (some _) = false

abbrev pub is_of : ℕ → ℕ → ReferentialAssignment → Bool
is_of tenant referential a = a.tenant == tenant && a.referential == referential

unfoldable pub is_granted : ℕ → Referential → Shelf → Bool
is_granted tenant r shelf =
    some_of (λ a. is_of tenant r.id a && is_standing a.revoked_at) shelf.assignments

-- `owner_tenant_id is not None and owner_tenant_id != tenant.id`
abbrev pub is_owned_elsewhere : Option ℕ → ℕ → Bool
is_owned_elsewhere none tenant = false
is_owned_elsewhere (some owner) tenant = not (owner == tenant)

-- `if note: assignment.note = note`
abbrev pub lift_revocation : String → ReferentialAssignment → ReferentialAssignment
lift_revocation note a = record a {
  revoked_at = none;
  revoked_by = none;
  note = if str_eq note "" then a.note else note;
}

-- The existing row of the pair, its withdrawal lifted.
unfoldable pub reassign : ℕ → ℕ → String → List ReferentialAssignment → List ReferentialAssignment
reassign tenant referential note [] = []
reassign tenant referential note (a ∷ rows) =
    let rest = reassign tenant referential note rows in
    (if is_of tenant referential a && not (is_standing a.revoked_at)
      then lift_revocation note a
      else a)
    ∷ rest

-- The row that `get_or_create` creates.
abbrev pub new_row : ℕ → Referential → Option ℕ → String → ℕ → Shelf → Shelf
new_row tenant r granted_by note now shelf = record shelf {
  assignments =
      record {
        tenant = tenant;
        referential = r.id;
        granted_at = now;
        granted_by = granted_by;
        revoked_at = none;
        revoked_by = none;
        note = note;
      }
      ∷ shelf.assignments;
}

unfoldable pub assign_referential :
    ℕ → Referential → Option ℕ → String → ℕ → Shelf → Result AssignmentError Shelf
unfolding reassign
assign_referential tenant r granted_by note now shelf =
    if is_owned_elsewhere r.owner_tenant tenant
    then err (owned_by_another r.name)
    else if some_of (is_of tenant r.id) shelf.assignments
    then ok (record shelf { assignments = reassign tenant r.id note shelf.assignments })
    else ok (new_row tenant r granted_by note now shelf)

unfoldable pub withdraw :
    ℕ → ℕ → Option ℕ → ℕ → List ReferentialAssignment → List ReferentialAssignment
withdraw tenant referential revoked_by now [] = []
withdraw tenant referential revoked_by now (a ∷ rows) =
    let rest = withdraw tenant referential revoked_by now rows in
    (if is_of tenant referential a && is_standing a.revoked_at
      then record a { revoked_at = some now; revoked_by = revoked_by }
      else a)
    ∷ rest

-- The pair is unique, so the write reaches its one row.
unfoldable pub revoke_referential : ℕ → Referential → Option ℕ → ℕ → Shelf → Shelf
unfolding withdraw
revoke_referential tenant r revoked_by now shelf = record shelf {
  assignments = withdraw tenant r.id revoked_by now shelf.assignments;
}
