-- ===== src/Tenants/Members.antt =====
-- backend/apps/tenants/services.py: the people of a client and their roles. An address comes in its
-- normal form; the guard of the quota of users is an argument.
use rssi_as_a_service.Prelude.{
  ℕ, suc, ◌<◌, String, Bool, true, false, ◌&&◌, ◌||◌, not, List, [], ◌∷◌, Option, none, some, ◌==◌,
  str_eq, if◌then◌else◌, count_of, some_of, Result, ok, guard, ◌>>◌,
}

pub data Role : Type 0 where
  admin contributor reader : Role

pub record Membership : Type 0 where
  pub id : ℕ
  pub tenant : ℕ
  pub user : ℕ
  pub role : Role

pub record User : Type 0 where
  pub id : ℕ
  pub email : String
  pub is_active : Bool

pub record House : Type 0 where
  pub users : List User
  pub memberships : List Membership
  pub next_user : ℕ
  pub next_membership : ℕ

pub data TenantError : Type 0 where
  no_address already_member last_admin quota_reached : TenantError

abbrev pub is_admin : Role → Bool
is_admin admin = true
is_admin contributor = false
is_admin reader = false

abbrev pub is_admin_of : ℕ → Membership → Bool
is_admin_of tenant m = m.tenant == tenant && is_admin m.role

unfoldable pub find_membership : ℕ → List Membership → Option Membership
find_membership id [] = none
find_membership id (m ∷ rows) =
    let rest = find_membership id rows in if m.id == id then some m else rest

-- Writes on the row of a key.
unfoldable pub change_membership : (Membership → Membership) → ℕ → List Membership → List Membership
change_membership f id [] = []
change_membership f id (m ∷ rows) =
    let rest = change_membership f id rows in if m.id == id then f m ∷ rows else m ∷ rest

unfoldable pub drop_membership : ℕ → List Membership → List Membership
drop_membership id [] = []
drop_membership id (m ∷ rows) =
    let rest = drop_membership id rows in if m.id == id then rows else m ∷ rest

unfoldable pub set_user_active : Bool → ℕ → List User → List User
set_user_active active id [] = []
set_user_active active id (u ∷ rows) =
    let rest = set_user_active active id rows in
    (if u.id == id then record u { is_active = active } else u) ∷ rest

unfoldable pub user_by_email : String → List User → Option User
user_by_email email [] = none
user_by_email email (u ∷ rows) =
    let rest = user_by_email email rows in if str_eq u.email email then some u else rest

unfoldable pub is_last_admin : Membership → House → Bool
is_last_admin m house =
    is_admin m.role
    && count_of (λ x. is_admin_of m.tenant x && not (x.id == m.id)) house.memberships == 0

-- The administrators of a client.
unfoldable pub admins : ℕ → House → ℕ
admins tenant house = count_of (is_admin_of tenant) house.memberships

abbrev pub HasAdmin : ℕ → House → Type 0
HasAdmin tenant house = 0 < admins tenant house

unfoldable pub change_member_role : Membership → Role → House → Result TenantError House
change_member_role m role house = do
  guard (is_admin role || not (is_last_admin m house)) last_admin
  ok (record house {
    memberships = change_membership (λ row. record row { role = role }) m.id house.memberships;
  })

unfoldable pub set_member_active : Membership → Bool → House → Result TenantError House
set_member_active m active house = do
  guard (active || not (is_last_admin m house)) last_admin
  ok (record house { users = set_user_active active m.user house.users })

unfoldable pub remove_member : Membership → House → Result TenantError House
remove_member m house = do
  guard (not (is_last_admin m house)) last_admin
  ok (record house { memberships = drop_membership m.id house.memberships })

-- The account of this address, or a new one that is not active yet.
unfoldable pub user_for : String → House → User × House
user_for email house = elim (user_by_email email house.users) [
  | some u ↦ (u, house)
  | none ↦
      let u : User = record { id = house.next_user; email = email; is_active = false } in
      (u, record house { users = u ∷ house.users; next_user = suc house.next_user })
]

-- The link of access that follows is that of Accounts.Invitations.
unfoldable pub invite_member :
    Bool → ℕ → String → Role → House → Result TenantError (Membership × House)
invite_member has_room tenant email role house = do
  guard (not (str_eq email "")) no_address
  guard has_room quota_reached
  let (u, house') = user_for email house
  guard
      (not (some_of (λ (x : Membership). x.tenant == tenant && x.user == u.id) house'.memberships))
      already_member
  let m : Membership = record {
    id = house'.next_membership;
    tenant = tenant;
    user = u.id;
    role = role;
  }
  ok (
    m,
    record house' {
      memberships = m ∷ house'.memberships;
      next_membership = suc house'.next_membership;
    },
  )
