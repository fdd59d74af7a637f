-- ===== src/Tests/Members.antt =====
-- Concrete runs of the people of a client.
use rssi_as_a_service.Prelude.{◌≡◌, refl, true, [], ◌∷◌, some, ok, count_of, arith}
use mathlib.Core.List.Memᴰ
use rssi_as_a_service.Tenants.Members.{
  admin, reader, Membership, House, find_membership, change_membership, is_last_admin,
  change_member_role, admins, HasAdmin,
}
use rssi_as_a_service.Tenants.Reach.{Step, Reach, Reach-HasAdmin}
use rssi_as_a_service.Tenants.Inactive.{BothOut, set_member_active-BothOut}

abbrev ann : Membership
ann = record { id = 1; tenant = 7; user = 11; role = admin }

abbrev bob : Membership
bob = record { id = 2; tenant = 7; user = 12; role = admin }

abbrev acme : House
acme = record {
  users =
      record { id = 11; email = "ann@a.fr"; is_active = true }
      ∷ record { id = 12; email = "bob@a.fr"; is_active = true }
      ∷ [];
  memberships = ann ∷ bob ∷ [];
  next_user = 13;
  next_membership = 3;
}

abbrev stepped_down : House
stepped_down = record acme { memberships = record ann { role = reader } ∷ bob ∷ [] }

steps_down : change_member_role ann reader acme ≡ ok stepped_down
unfolding change_member_role is_last_admin count_of change_membership
steps_down = refl

ann_found : find_membership ann.id acme.memberships ≡ some ann
unfolding find_membership
ann_found = refl

two_admins : HasAdmin 7 acme
unfolding admins count_of
two_admins = omega arith

Reach-HasAdmin_example : HasAdmin 7 stepped_down
Reach-HasAdmin_example =
    Reach-HasAdmin 7 (Reach.next (Step.changes ann reader ann_found steps_down) Reach.here)
      two_admins

set_member_active-BothOut_example : BothOut ann bob acme
set_member_active-BothOut_example =
    set_member_active-BothOut ann bob acme (Memᴰ.head refl) (Memᴰ.tail (Memᴰ.head refl)) refl refl
      refl
