-- ===== src/Tenants/Inactive.antt =====
-- backend/apps/tenants/services.py: the guard of the last administrator does not see who is active.
use rssi_as_a_service.Prelude.{
  ℕ, ◌<◌, ◌≡◌, refl, ap, sym, ◌∙◌, Bool, true, false, ◌&&◌, not, List, [], ◌∷◌, ◌==◌, count_of, ok,
  arith, Bool-cases, inl, inr, Memᴰ, All,
}
use rssi_as_a_service.Tenants.Members.{
  Membership, User, House, is_admin_of, is_last_admin, set_member_active, set_user_active,
}

-- No account of this key is active.
abbrev pub Inactive : ℕ → List User → Type 0
Inactive id = All (λ u. (u.id == id) ≡ true → u.is_active ≡ false)

count-mem :
    (p : Membership → Bool) (rows : List Membership) (m : Membership)
    → Memᴰ m rows
    → p m ≡ true
    → 0 < count_of p rows
unfolding count_of
count-mem p [] m k h = elim k [ ]
count-mem p (x ∷ rows) m (Memᴰ.head e) h =
    let found : p x ≡ true = ap p (sym e) ∙ h in ground (arith, found)
count-mem p (x ∷ rows) m (Memᴰ.tail k) h = ground (arith, count-mem p rows m k h)

set_user_active-Inactive :
    (id : ℕ) (users : List User) → Inactive id (set_user_active false id users)
unfolding set_user_active
set_user_active-Inactive id [] = tt
set_user_active-Inactive id (u ∷ rows) = elim (Bool-cases (u.id == id)) [
  | inl same ↦ rw same ((λ k. refl), set_user_active-Inactive id rows)
  | inr other ↦ rw other ((λ k. cc (k, other)), set_user_active-Inactive id rows)
]

Inactive-stays :
    (id other : ℕ) (users : List User)
    → Inactive id users
    → Inactive id (set_user_active false other users)
unfolding set_user_active
Inactive-stays id other [] h = tt
Inactive-stays id other (u ∷ rows) h = elim (Bool-cases (u.id == other)) [
  | inl same ↦ rw same ((λ k. refl), Inactive-stays id other rows h.1)
  | inr past ↦ rw past (h.0, Inactive-stays id other rows h.1)
]

passes :
    (m n : Membership) (house : House)
    → Memᴰ n house.memberships
    → is_admin_of m.tenant n ≡ true
    → (n.id == m.id) ≡ false
    → set_member_active m false house
      ≡ ok (record house { users = set_user_active false m.user house.users })
unfolding set_member_active is_last_admin
passes m n house inside admin_too apart =
    let others =
      count-mem (λ x. is_admin_of m.tenant x && not (x.id == m.id)) house.memberships n inside
        (ground (arith, admin_too, apart)) in
    ground (arith, others)

-- Of two administrators of a client, each can be made inactive after the other, and then both are.
abbrev pub BothOut : Membership → Membership → House → Type 0
BothOut m n house =
    (first : House) × (second : House) × (set_member_active m false house ≡ ok first)
    × (set_member_active n false first ≡ ok second)
    × Inactive m.user second.users
    × Inactive n.user second.users

-- Two administrators of a client can be made inactive one after the other, also when they are the only
-- ones: the guard counts the administrators, active or not.
pub set_member_active-BothOut :
    (m n : Membership) (house : House)
    → Memᴰ m house.memberships
    → Memᴰ n house.memberships
    → is_admin_of m.tenant n ≡ true
    → is_admin_of n.tenant m ≡ true
    → (n.id == m.id) ≡ false
    → BothOut m n house
set_member_active-BothOut m n house km kn admin_n admin_m apart =
    let users' = set_user_active false m.user house.users in
    let first : House = record house { users = users' } in
    let second : House = record house { users = set_user_active false n.user users' } in
    (
      first,
      second,
      passes m n house kn admin_n apart,
      passes n m first km admin_m (ground (arith, apart)),
      Inactive-stays m.user n.user users' (set_user_active-Inactive m.user house.users),
      set_user_active-Inactive n.user users',
    )
