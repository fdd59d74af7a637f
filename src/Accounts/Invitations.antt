-- ===== src/Accounts/Invitations.antt =====
-- backend/apps/accounts/services.py, the links by which a person chooses a password. The hashes, the
-- cache and the drawn token are parameters. The rows stand newest first.
use rssi_as_a_service.Prelude.{
  ℕ, suc, ◌+◌, ◌*◌, String, Bool, true, false, ◌&&◌, List, [], ◌∷◌, Option, none, some, ◌==◌, ltb,
  str_eq, if◌then◌else◌, get_or, Result, ok, or_raise, ◌>>=◌,
}
use rssi_as_a_service.Accounts.Lockout.{second, Cache, clear_failed_attempts}

pub data Purpose : Type 0 where
  invitation reset : Purpose

abbrev pub same_purpose : Purpose → Purpose → Bool
same_purpose invitation invitation = true
same_purpose reset reset = true
same_purpose _ _ = false

pub record User : Type 0 where
  pub id : ℕ
  pub email : String
  pub password : String
  pub is_active : Bool

pub record AccessInvitation : Type 0 where
  pub id : ℕ
  pub user : ℕ
  pub purpose : Purpose
  pub token_hash : String
  pub expires_at : ℕ
  pub used_at : Option ℕ
  pub created_by : Option ℕ

pub record Registry (S : Type 0) : Type 0 where
  pub users : List User
  pub invitations : List AccessInvitation
  pub next_invitation : ℕ
  pub cache : S

pub data InvitationError : Type 0 where
  link_unusable : InvitationError

abbrev pub hour : ℕ
hour = 3600 * second

abbrev pub ttl_hours_of : Purpose → ℕ
ttl_hours_of invitation = 72
ttl_hours_of reset = 2

abbrev pub is_unused : Option ℕ → Bool
is_unused none = true
is_unused (some _) = false

-- `is_usable`
unfoldable pub is_usable : ℕ → AccessInvitation → Bool
is_usable now i = is_unused i.used_at && ltb now i.expires_at

abbrev pub is_for : ℕ → Purpose → AccessInvitation → Bool
is_for user purpose i = i.user == user && same_purpose i.purpose purpose

-- The links of the same use that were not used are marked as used.
unfoldable pub revoke_links : ℕ → Purpose → ℕ → List AccessInvitation → List AccessInvitation
revoke_links user purpose now [] = []
revoke_links user purpose now (i ∷ rows) =
    let rest = revoke_links user purpose now rows in
    (if is_for user purpose i && is_unused i.used_at then record i { used_at = some now } else i)
    ∷ rest

unfoldable pub find_token : String → List AccessInvitation → Option AccessInvitation
find_token hashed [] = none
find_token hashed (i ∷ rows) =
    let rest = find_token hashed rows in if str_eq i.token_hash hashed then some i else rest

unfoldable pub mark_used : ℕ → ℕ → List AccessInvitation → List AccessInvitation
mark_used key now [] = []
mark_used key now (i ∷ rows) =
    let rest = mark_used key now rows in
    (if i.id == key then record i { used_at = some now } else i) ∷ rest

unfoldable pub find_user : ℕ → List User → Option User
find_user key [] = none
find_user key (u ∷ users) = let rest = find_user key users in if u.id == key then some u else rest

unfoldable pub set_password : ℕ → String → List User → List User
set_password key password [] = []
set_password key password (u ∷ users) =
    let rest = set_password key password users in
    (if u.id == key then record u { password = password; is_active = true } else u) ∷ rest

module _ {S : Type 0} (cache : Cache S) (hash hash_token make_password : String → String) where
  unfoldable pub create_access_invitation :
      ℕ → Purpose → Option ℕ → Option ℕ → String → ℕ → Registry S → AccessInvitation × Registry S
  unfolding revoke_links
  create_access_invitation user purpose actor ttl_hours raw_token now registry =
      let new : AccessInvitation = record {
        id = registry.next_invitation;
        user = user;
        purpose = purpose;
        token_hash = hash_token raw_token;
        expires_at = now + get_or ttl_hours (ttl_hours_of purpose) * hour;
        used_at = none;
        created_by = actor;
      } in
      (
        new,
        record registry {
          invitations = new ∷ revoke_links user purpose now registry.invitations;
          next_invitation = suc registry.next_invitation;
        },
      )

  unfoldable pub resolve_access_invitation : String → ℕ → Registry S → Option AccessInvitation
  unfolding find_token is_usable
  resolve_access_invitation raw_token now registry =
      elim (find_token (hash_token raw_token) registry.invitations) [
        | none ↦ none
        | some i ↦ if is_usable now i then some i else none
      ]

  -- The password, the account and the link written; the counters of the address of the account
  -- cleared.
  abbrev pub accepted : AccessInvitation → User → String → ℕ → Registry S → Registry S
  accepted i u new_password now registry = record registry {
    users = set_password u.id (make_password new_password) registry.users;
    invitations = mark_used i.id now registry.invitations;
    cache = clear_failed_attempts cache hash u.email "" registry.cache;
  }

  -- A link whose account is gone is gone with it.
  unfoldable pub accept_access_invitation :
      String → String → ℕ → Registry S → Result InvitationError (User × Registry S)
  unfolding resolve_access_invitation
  accept_access_invitation raw_token new_password now registry = do
    i ← or_raise (resolve_access_invitation raw_token now registry) link_unusable
    u ← or_raise (find_user i.user registry.users) link_unusable
    ok (
      record u { password = make_password new_password; is_active = true },
      accepted i u new_password now registry,
    )
