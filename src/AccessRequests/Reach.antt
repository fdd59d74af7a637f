-- ===== src/AccessRequests/Reach.antt =====
-- backend/apps/access_requests: the life of a request over any sequence of deposits, withdrawals and
-- steps, each on a row as it is loaded, with other writes of the platform in between.
use rssi_as_a_service.Prelude.{
  ℕ, suc, ◌≡◌, refl, sym, subst, String, Bool, true, ◌∷◌, Option, some, arith, All, ok,
}
use rssi_as_a_service.AccessRequests.Model.{
  AccessRequest, Desk, Status, is_unique, find_request, update_rows,
}
use rssi_as_a_service.AccessRequests.Services.{
  Ask, new_request, create_request, set_cancelled, cancel_request, set_progress, response_or,
  advance_request,
}
use rssi_as_a_service.AccessRequests.Table.{
  IsKeyed, AreBelow, AreBelow-suc, KeepsSubject, find-AreBelow, update-IsKeyed, update-AreBelow,
  update-All, find-All,
}
use rssi_as_a_service.AccessRequests.Outcomes.{
  set_progress-KeepsSubject, create_request-inserts, cancel_request-writes, advance_request-writes,
}
use rssi_as_a_service.AccessRequests.Follow.{
  IsDecided, IsSound, Follows, Follows-trans, RowsFollow, RowsFollow-same, update-RowsFollow,
  insert-RowsFollow, set_cancelled-Follows, set_progress-Follows, set_progress-IsDecided,
}

pub data Step : Desk → Desk → Type 0 where
  asks :
      {desk after : Desk} (seen : Desk) (a : Ask) (now : ℕ) (r : AccessRequest)
      → create_request seen a now desk ≡ ok (r, after)
      → Step desk after
  withdraws :
      {desk after : Desk} (r r' : AccessRequest) (user : Option ℕ) (now : ℕ)
      → find_request r.id desk.requests ≡ some r
      → cancel_request r user now desk ≡ ok (r', after)
      → Step desk after
  advances :
      {desk after : Desk} (r r' : AccessRequest) (status : Status) (response : String)
      (actor : Option ℕ) (now : ℕ) (b : Bool)
      → find_request r.id desk.requests ≡ some r
      → advance_request r status response actor now desk ≡ ok (r', b, after)
      → Step desk after
  -- A write of another part of the platform.
  elsewhere :
      {desk after : Desk}
      → after.requests ≡ desk.requests
      → after.next_request ≡ desk.next_request
      → Step desk after

pub data Reach : Desk → Desk → Type 0 where
  here : {desk : Desk} → Reach desk desk
  next : {desk mid after : Desk} → Reach desk mid → Step mid after → Reach desk after

-- A step keeps the table sound, and every request has one that follows it.
abbrev Goes : Desk → Desk → Type 0
Goes desk after = IsSound after × RowsFollow desk.requests after.requests

-- A write on one loaded row.
write-Goes :
    (f : AccessRequest → AccessRequest) (s : AccessRequest) (desk after : Desk)
    → KeepsSubject f
    → IsSound desk
    → find_request s.id desk.requests ≡ some s
    → Follows s (f s)
    → IsDecided (f s)
    → after.requests ≡ update_rows f s.id desk.requests
    → after.next_request ≡ desk.next_request
    → is_unique after.requests ≡ true
    → Goes desk after
write-Goes f s desk after k v l follows decided e n u = (
  record {
    keyed = subst IsKeyed (sym e) (update-IsKeyed f k s.id desk.requests v.keyed);
    below = rw (e, n) (update-AreBelow f k s.id desk.next_request desk.requests v.below);
    unique = u;
    decided =
        subst (All IsDecided) (sym e)
          (update-All f k IsDecided s.id s desk.requests v.keyed l decided v.decided);
  },
  subst (RowsFollow desk.requests) (sym e) (update-RowsFollow f s desk.requests k l follows),
)

insert-Goes :
    (q : AccessRequest) (desk after : Desk)
    → IsSound desk
    → q.id ≡ desk.next_request
    → IsDecided q
    → after.requests ≡ q ∷ desk.requests
    → after.next_request ≡ suc desk.next_request
    → is_unique (q ∷ desk.requests) ≡ true
    → Goes desk after
insert-Goes q desk after v i d e n u = (
  record {
    keyed = rw (e, i) (find-AreBelow desk.next_request desk.requests v.below, v.keyed);
    below = rw e (
      omega (arith, i, n),
      subst (λ m. AreBelow m desk.requests) (sym n)
          (AreBelow-suc desk.next_request desk.requests v.below),
    );
    unique = rw e u;
    decided = rw e (d, v.decided);
  },
  subst (RowsFollow desk.requests) (sym e)
      (insert-RowsFollow desk.next_request q desk.requests v.below i),
)

Step-Goes : {desk after : Desk} → IsSound desk → Step desk after → Goes desk after
Step-Goes {desk} {after} v (asks seen a now r done) =
    let (label, is_new, rows, n, u) = create_request-inserts seen a now desk after r done in
    insert-Goes r desk after v (unfold new_request in (rw is_new refl))
      (unfold new_request in (rw is_new refl)) rows n u
Step-Goes {desk} {after} v (withdraws r r' user now l done) =
    let (o, rows, n, u) = cancel_request-writes r user now desk after r' done in
    write-Goes (set_cancelled user now) r desk after
      (λ x. unfold set_cancelled in (refl, refl, refl, refl)) v l
      (set_cancelled-Follows user now r o) (unfold set_cancelled in refl) rows n u
Step-Goes {desk} {after} v (advances r r' status response actor now b l done) =
    let (o, a, rows, n, u) =
      advance_request-writes r status response actor now desk after r' b done in
    let said = response_or response r in
    write-Goes (set_progress status said actor now) r desk after
      (set_progress-KeepsSubject status said actor now) v l
      (set_progress-Follows status said actor now r o a)
      (set_progress-IsDecided status said actor now r a
        (find-All IsDecided r.id r desk.requests l v.decided) o)
      rows n u
Step-Goes {desk} {after} v (elsewhere rows n) = (
  record {
    keyed = rw rows v.keyed;
    below = rw (rows, n) v.below;
    unique = rw rows v.unique;
    decided = rw rows v.decided;
  },
  RowsFollow-same desk.requests after.requests rows,
)

-- From a sound table, whatever is deposited, withdrawn and advanced, in any order, on rows as they
-- are loaded, and whatever a deposit's check had read before its write: at most one request of a
-- client for a subject is open, the date of the decision stands exactly on the concluded requests,
-- and every request stays, with its subject and its deposit, as it is once concluded, and never
-- goes back to « nouvelle ».
pub Reach-RowsFollow :
    {desk after : Desk}
    → IsSound desk
    → Reach desk after
    → IsSound after × RowsFollow desk.requests after.requests
Reach-RowsFollow {desk} v here = (v, RowsFollow-same desk.requests desk.requests refl)
Reach-RowsFollow {desk} {after} v (next r step) =
    let (sound, before) = Reach-RowsFollow v r in
    let (sound', last) = Step-Goes sound step in
    (
      sound',
      λ i q h.
          let (q', h', f) = before i q h in
          let (q'', h'', g) = last i q' h' in (q'', h'', Follows-trans q q' q'' f g),
    )
