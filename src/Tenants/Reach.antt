-- ===== src/Tenants/Reach.antt =====
-- backend/apps/tenants/services.py: the administrators of the clients over any sequence of operations, and
-- the accounts that these operations leave without access.
use rssi_as_a_service.Prelude.{
  ℕ, ◌<◌, String, ◌≡◌, refl, sym, subst, Bool, true, false, ◌&&◌, ◌||◌, not, List, ◌∷◌, some, ◌==◌,
  count_of, ok, arith, Bool-cases, Option-cases, inl, inr, ==→eq,
}
use rssi_as_a_service.Tenants.Members.{
  Role, Membership, House, is_admin, is_admin_of, find_membership, change_membership,
  drop_membership, admins, HasAdmin, is_last_admin, change_member_role, set_member_active,
  remove_member, invite_member, user_for, user_by_email,
}
use rssi_as_a_service.Tenants.Admins.{count-change, count-drop, others-change, others-drop}

-- One operation on the people of the clients, on a membership as it stands in the table.
pub data Step : House → House → Type 0 where
  changes :
      (m : Membership) (role : Role) {a b : House}
      → find_membership m.id a.memberships ≡ some m
      → change_member_role m role a ≡ ok b
      → Step a b
  switches :
      (m : Membership) (active : Bool) {a b : House}
      → set_member_active m active a ≡ ok b
      → Step a b
  removes :
      (m : Membership) {a b : House}
      → find_membership m.id a.memberships ≡ some m
      → remove_member m a ≡ ok b
      → Step a b
  invites :
      (has_room : Bool) (tenant : ℕ) (email : String) (role : Role) {a : House}
      {out : Membership × House}
      → invite_member has_room tenant email role a ≡ ok out
      → Step a out.1

pub data Reach : House → House → Type 0 where
  here : {a : House} → Reach a a
  next : {a b c : House} → Step a b → Reach b c → Reach a c

-- A write on one membership, for its own client and for another.
change-own :
    (m : Membership) (role : Role) (rows : List Membership) (a : House)
    → a.memberships ≡ rows
    → find_membership m.id rows ≡ some m
    → (is_admin role || not (is_last_admin m a)) ≡ true
    → 0 < count_of (is_admin_of m.tenant) rows
    → 0
      < count_of
          (is_admin_of m.tenant)
          (change_membership (λ row. record row { role = role }) m.id rows)
unfolding is_last_admin
change-own m role rows a e found allowed some_admin =
    let p = is_admin_of m.tenant in
    let f : Membership → Membership = λ row. record row { role = role } in
    let balance = count-change p f m.id rows m found in
    let others = others-change p f m.id rows in
    let allowed' : (is_admin role
          || not (is_admin m.role && count_of (λ x. p x && not (x.id == m.id)) rows == 0))
        ≡ true =
      subst
        (λ t.
          (is_admin role
            || not (is_admin m.role && count_of (λ x. p x && not (x.id == m.id)) t == 0))
          ≡ true)
        e allowed in
    ground (arith, balance, others, allowed', some_admin)

change-other :
    (m : Membership) (role : Role) (rows : List Membership) (t : ℕ)
    → (m.tenant == t) ≡ false
    → find_membership m.id rows ≡ some m
    → 0 < count_of (is_admin_of t) rows
    → 0 < count_of (is_admin_of t) (change_membership (λ row. record row { role = role }) m.id rows)
change-other m role rows t other found some_admin =
    let balance =
      count-change (is_admin_of t) (λ row. record row { role = role }) m.id rows m found in
    ground (arith, balance, some_admin, other)

drop-own :
    (m : Membership) (rows : List Membership) (a : House)
    → a.memberships ≡ rows
    → find_membership m.id rows ≡ some m
    → is_last_admin m a ≡ false
    → 0 < count_of (is_admin_of m.tenant) rows
    → 0 < count_of (is_admin_of m.tenant) (drop_membership m.id rows)
unfolding is_last_admin
drop-own m rows a e found allowed some_admin =
    let p = is_admin_of m.tenant in
    let balance = count-drop p m.id rows m found in
    let others = others-drop p m.id rows in
    let allowed' : (is_admin m.role && count_of (λ x. p x && not (x.id == m.id)) rows == 0)
        ≡ false =
      subst (λ t. (is_admin m.role && count_of (λ x. p x && not (x.id == m.id)) t == 0) ≡ false) e
        allowed in
    ground (arith, balance, others, allowed', some_admin)

drop-other :
    (m : Membership) (rows : List Membership) (t : ℕ)
    → (m.tenant == t) ≡ false
    → find_membership m.id rows ≡ some m
    → 0 < count_of (is_admin_of t) rows
    → 0 < count_of (is_admin_of t) (drop_membership m.id rows)
drop-other m rows t other found some_admin =
    let balance = count-drop (is_admin_of t) m.id rows m found in
    ground (arith, balance, some_admin, other)

changes-HasAdmin :
    (m : Membership) (role : Role) (a b : House) (t : ℕ)
    → find_membership m.id a.memberships ≡ some m
    → change_member_role m role a ≡ ok b
    → HasAdmin t a
    → HasAdmin t b
unfolding change_member_role admins
changes-HasAdmin m role a b t found h some_admin =
    let rows : change_membership (λ row. record row { role = role }) m.id a.memberships
        ≡ b.memberships =
      ground (arith, h) in
    let allowed : (is_admin role || not (is_last_admin m a)) ≡ true = ground (arith, h) in
    subst (λ rs. 0 < count_of (is_admin_of t) rs) rows
      (elim (Bool-cases (m.tenant == t)) [
        | inl same ↦
            subst
              (λ k.
                0
                < count_of (is_admin_of k)
                    (change_membership (λ row. record row { role = role }) m.id a.memberships))
              (==→eq m.tenant t same)
              (change-own m role a.memberships a refl found allowed (
                subst (λ k. 0 < count_of (is_admin_of k) a.memberships)
                  (sym (==→eq m.tenant t same)) some_admin))
        | inr other ↦ change-other m role a.memberships t other found some_admin
      ])

removes-HasAdmin :
    (m : Membership) (a b : House) (t : ℕ)
    → find_membership m.id a.memberships ≡ some m
    → remove_member m a ≡ ok b
    → HasAdmin t a
    → HasAdmin t b
unfolding remove_member admins
removes-HasAdmin m a b t found h some_admin =
    let rows : drop_membership m.id a.memberships ≡ b.memberships = ground (arith, h) in
    let allowed : is_last_admin m a ≡ false = ground (arith, h) in
    subst (λ rs. 0 < count_of (is_admin_of t) rs) rows
      (elim (Bool-cases (m.tenant == t)) [
        | inl same ↦
            subst (λ k. 0 < count_of (is_admin_of k) (drop_membership m.id a.memberships))
              (==→eq m.tenant t same)
              (drop-own m a.memberships a refl found allowed (
                subst (λ k. 0 < count_of (is_admin_of k) a.memberships)
                  (sym (==→eq m.tenant t same)) some_admin))
        | inr other ↦ drop-other m a.memberships t other found some_admin
      ])

switches-HasAdmin :
    (m : Membership) (active : Bool) (a b : House) (t : ℕ)
    → set_member_active m active a ≡ ok b
    → HasAdmin t a
    → HasAdmin t b
unfolding set_member_active admins
switches-HasAdmin m active a b t h some_admin =
    let rows : a.memberships ≡ b.memberships = ground (arith, h) in
    subst (λ rs. 0 < count_of (is_admin_of t) rs) rows some_admin

user_for-memberships :
    (email : String) (a : House) → (user_for email a).1.memberships ≡ a.memberships
unfolding user_for
user_for-memberships email a = elim (Option-cases (user_by_email email a.users)) [
  | inl missing ↦ rw (missing, user_for) refl
  | inr (u, found) ↦ rw (found, user_for) refl
]

invites-HasAdmin :
    (has_room : Bool) (tenant : ℕ) (email : String) (role : Role) (a : House)
    (out : Membership × House) (t : ℕ)
    → invite_member has_room tenant email role a ≡ ok out
    → HasAdmin t a
    → HasAdmin t out.1
unfolding invite_member admins count_of
invites-HasAdmin has_room tenant email role a out t h some_admin =
    let rows : out.0 ∷ (user_for email a).1.memberships ≡ out.1.memberships = ground (arith, h) in
    let before : 0 < count_of (is_admin_of t) (user_for email a).1.memberships =
      subst (λ rs. 0 < count_of (is_admin_of t) rs) (sym (user_for-memberships email a))
        some_admin in
    let after : 0 < count_of (is_admin_of t) (out.0 ∷ (user_for email a).1.memberships) =
      ground (arith, before) in
    subst (λ rs. 0 < count_of (is_admin_of t) rs) rows after

Step-HasAdmin : {a b : House} (t : ℕ) → Step a b → HasAdmin t a → HasAdmin t b
Step-HasAdmin t (Step.changes m role {a = a} {b = b} found h) k =
    changes-HasAdmin m role a b t found h k
Step-HasAdmin t (Step.switches m active {a = a} {b = b} h) k = switches-HasAdmin m active a b t h k
Step-HasAdmin t (Step.removes m {a = a} {b = b} found h) k = removes-HasAdmin m a b t found h k
Step-HasAdmin t (Step.invites has_room tenant email role {a = a} {out = out} h) k =
    invites-HasAdmin has_room tenant email role a out t h k

-- Whatever is done with the people of the clients, a client that has an administrator keeps one.
pub Reach-HasAdmin : {a b : House} (t : ℕ) → Reach a b → HasAdmin t a → HasAdmin t b
Reach-HasAdmin t Reach.here k = k
Reach-HasAdmin t (Reach.next step rest) k = Reach-HasAdmin t rest (Step-HasAdmin t step k)
