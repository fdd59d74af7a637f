-- ===== src/Accounts/Links.antt =====
-- backend/apps/accounts/services.py: how often a link serves, and how many links of one use serve.
use rssi_as_a_service.Prelude.{
  ℕ, ◌+◌, ◌*◌, ◌<◌, ◌≡◌, refl, sym, subst, String, true, false, ◌&&◌, List, [], ◌∷◌, Option, none,
  some, str_eq, ltb, count_of, arith, Bool-cases, Option-cases, inl, inr, ok, err, get_or, ==-refl,
}
use rssi_as_a_service.Accounts.Lockout.{Cache}
use rssi_as_a_service.Accounts.Invitations.{
  Purpose, same_purpose, invitation, reset, User, AccessInvitation, Registry, link_unusable, hour,
  ttl_hours_of, is_unused, is_usable, is_for, revoke_links, find_token, mark_used,
  create_access_invitation, resolve_access_invitation, accept_access_invitation,
}

-- The link that a token names, once its row is used.
find-mark_used :
    (hashed : String) (now : ℕ) (i : AccessInvitation) (rows : List AccessInvitation)
    → find_token hashed rows ≡ some i
    → find_token hashed (mark_used i.id now rows) ≡ some (record i { used_at = some now })
unfolding find_token mark_used
find-mark_used hashed now i [] h = cc
find-mark_used hashed now i (r ∷ rows) h = elim (Bool-cases (str_eq r.token_hash hashed)) [
  | inl named ↦
      let same : r ≡ i = ground (arith, h, named) in
      rw (same, ==-refl i.id) (ground (arith, named, same))
  | inr other ↦ ground (arith, other, h, find-mark_used hashed now i rows)
]

-- No link that could serve is left for this use.
count-revoked :
    (user : ℕ) (purpose : Purpose) (now t : ℕ) (rows : List AccessInvitation)
    → count_of (λ i. is_for user purpose i && is_usable t i) (revoke_links user purpose now rows)
      ≡ 0
unfolding count_of revoke_links is_usable
count-revoked user purpose now t [] = refl
count-revoked user purpose now t (i ∷ rows) =
    elim (Bool-cases (is_for user purpose i && is_unused i.used_at)) [
      | inl revoked ↦ rw revoked (ground (arith, count-revoked user purpose now t rows))
      | inr left ↦ rw left (ground (arith, left, count-revoked user purpose now t rows))
    ]

same_purpose_refl : (p : Purpose) → same_purpose p p ≡ true
same_purpose_refl invitation = refl
same_purpose_refl reset = refl

module _ {S : Type 0} (cache : Cache S) (hash hash_token make_password : String → String) where
  -- While the link that was just issued lives, it is the only one of its use that serves for that
  -- person.
  pub create_access_invitation-replaces :
      (user : ℕ) (purpose : Purpose) (actor ttl_hours : Option ℕ) (raw_token : String) (now t : ℕ)
      (registry : Registry S)
      → t < now + get_or ttl_hours (ttl_hours_of purpose) * hour
      → count_of
          (λ i. is_for user purpose i && is_usable t i)
          (create_access_invitation cache hash hash_token make_password user purpose actor ttl_hours
            raw_token now registry).1.invitations
        ≡ 1
  unfolding create_access_invitation count_of is_usable
  create_access_invitation-replaces user purpose actor ttl_hours raw_token now t registry h =
      let lives : ltb t (now + get_or ttl_hours (ttl_hours_of purpose) * hour) ≡ true =
        ground (arith, h) in
      rw
        (
          ==-refl user,
          same_purpose_refl purpose,
          lives,
          count-revoked user purpose now t registry.invitations,
        )
        refl

  resolved_by :
      (raw_token : String) (now : ℕ) (registry : Registry S) (i : AccessInvitation)
      → resolve_access_invitation cache hash hash_token make_password raw_token now registry
        ≡ some i
      → find_token (hash_token raw_token) registry.invitations ≡ some i
  unfolding resolve_access_invitation
  resolved_by raw_token now registry i h =
      elim (Option-cases (find_token (hash_token raw_token) registry.invitations)) [
        | inl missing ↦ ground (arith, h, missing)
        | inr (j, e) ↦ ground (arith, h, e)
      ]

  refused_used :
      (raw_token : String) (now : ℕ) (registry : Registry S) (i : AccessInvitation)
      → find_token (hash_token raw_token) registry.invitations ≡ some i
      → is_unused i.used_at ≡ false
      → resolve_access_invitation cache hash hash_token make_password raw_token now registry ≡ none
  unfolding resolve_access_invitation is_usable
  refused_used raw_token now registry i h used = rw (resolve_access_invitation, h, used) refl

  -- A link that was accepted is refused ever after, whoever brings it and whatever the password.
  pub accept_access_invitation-once :
      (raw_token new_password again : String) (now later : ℕ) (registry after : Registry S)
      (u : User)
      → accept_access_invitation cache hash hash_token make_password raw_token new_password now
          registry
        ≡ ok (u, after)
      → accept_access_invitation cache hash hash_token make_password raw_token again later after
        ≡ err link_unusable
  unfolding accept_access_invitation
  accept_access_invitation-once raw_token new_password again now later registry after u done =
      elim (Option-cases
        (resolve_access_invitation cache hash hash_token make_password raw_token now registry)) [
          | inl missing ↦ ground (arith, done, missing)
          | inr (i, e) ↦
              let found = resolved_by raw_token now registry i e in
              let rows : after.invitations ≡ mark_used i.id now registry.invitations =
                ground (arith, done, e) in
              let gone = record i { used_at = some now } in
              let used = find-mark_used (hash_token raw_token) now i registry.invitations found in
              let named =
                subst (λ x. find_token (hash_token raw_token) x ≡ some gone) (sym rows) used in
              let refused = refused_used raw_token later after gone named refl in rw refused refl
        ]
