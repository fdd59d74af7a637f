-- ===== src/Training/Rows.antt =====
-- backend/apps/training: what the writes leave of the attempts and of the certificates.
use rssi_as_a_service.Prelude.{
  ◌⊎◌, ℕ, suc, ◌≤◌, ◌<◌, ◌≡◌, refl, ap, sym, ◌∙◌, subst, Bool, true, false, List, [], ◌∷◌, Option,
  some, ◌==◌, if◌then◌else◌, keep, length, some_of, arith, Bool-cases, inl, inr, ==→eq, ==-refl,
}
use rssi_as_a_service.Training.Model.{Enrollment, Attempt, Certificate, School, attempts_allowed}
use rssi_as_a_service.Training.Session.{attempts_of}
use rssi_as_a_service.Training.Links.{find_enrollment, change_enrollment, save_enrollment}
use rssi_as_a_service.Training.Attempts.{
  Fair, IsSound, after, after-Fair, keep-head-true, keep-head-false, certificates_of, is_passed,
  more_certificates,
}

find_head :
    (r : Enrollment) (id : ℕ) (rows : List Enrollment) (e : Enrollment)
    → (r.id == id) ≡ true
    → find_enrollment id (r ∷ rows) ≡ some e
    → r ≡ e
unfolding find_enrollment
find_head r id rows e found h =
    let b : Option Enrollment = find_enrollment id rows in
    let h' : some r ≡ some e = subst (λ (t : Bool). (if t then some r else b) ≡ some e) found h in
    cc h'

find_tail :
    (r : Enrollment) (id : ℕ) (rows : List Enrollment) (e : Enrollment)
    → (r.id == id) ≡ false
    → find_enrollment id (r ∷ rows) ≡ some e
    → find_enrollment id rows ≡ some e
unfolding find_enrollment
find_tail r id rows e past h =
    subst (λ (t : Bool). (if t then some r else find_enrollment id rows) ≡ some e) past h

-- What a change that keeps the keys leaves of a search: the row that stood there, changed or not.
abbrev Changed : (Enrollment → Enrollment) → ℕ → ℕ → Enrollment → List Enrollment → Type 0
Changed change i id e rows =
    (old : Enrollment) × (find_enrollment id rows ≡ some old)
    × ((e ≡ old) ⊎ ((id ≡ i) × (e ≡ change old)))

module _ (change : Enrollment → Enrollment) (keeps : (e : Enrollment) → (change e).id ≡ e.id) where
  find-Changed :
      (i id : ℕ) (e : Enrollment) (rows : List Enrollment)
      → find_enrollment id (change_enrollment change i rows) ≡ some e
      → Changed change i id e rows
  unfolding find_enrollment change_enrollment
  find-Changed i id e [] h = cc h
  find-Changed i id e (r ∷ rows) h = elim (Bool-cases (r.id == i)) [
    | inl hit ↦
        let h' : find_enrollment id (change r ∷ change_enrollment change i rows) ≡ some e =
          subst
            (λ (b : Bool).
              find_enrollment id (
                if b
                then change r ∷ change_enrollment change i rows
                else r ∷ change_enrollment change i rows)
              ≡ some e)
            hit h in
        elim (Bool-cases (r.id == id)) [
          | inl found ↦
              let here : (change r).id == id ≡ true = ap (λ k. k == id) (keeps r) ∙ found in
              let same : change r ≡ e =
                find_head (change r) id (change_enrollment change i rows) e here h' in
              (r, rw found refl, inr (sym (==→eq r.id id found) ∙ ==→eq r.id i hit, sym same))
          | inr past ↦
              let there : (change r).id == id ≡ false = ap (λ k. k == id) (keeps r) ∙ past in
              let (old, f, c) =
                find-Changed i id e rows
                  (find_tail (change r) id (change_enrollment change i rows) e there h') in
              (old, rw past f, c)
        ]
    | inr miss ↦
        let h' : find_enrollment id (r ∷ change_enrollment change i rows) ≡ some e =
          subst
            (λ (b : Bool).
              find_enrollment id (
                if b
                then change r ∷ change_enrollment change i rows
                else r ∷ change_enrollment change i rows)
              ≡ some e)
            miss h in
        elim (Bool-cases (r.id == id)) [
          | inl found ↦ (
            r,
            rw found refl,
            inl (sym (find_head r id (change_enrollment change i rows) e found h')),
          )
          | inr past ↦
              let (old, f, c) =
                find-Changed i id e rows
                  (find_tail r id (change_enrollment change i rows) e past h') in
              (old, rw past f, c)
        ]
  ]

-- A change of a row that takes no attempt away.
pub save-IsSound :
    (change : Enrollment → Enrollment) (i : ℕ) (school : School)
    → ((e : Enrollment) → (change e).id ≡ e.id)
    → ((old : Enrollment)
        → find_enrollment i school.enrollments ≡ some old
        → attempts_allowed old ≤ attempts_allowed (change old))
    → IsSound school
    → IsSound (save_enrollment change i school)
unfolding save_enrollment attempts_of
save-IsSound change i school keeps grows h = record {
  fair = h.fair;
  bounded = λ id e found.
      let (old, f, c) = find-Changed change keeps i id e school.enrollments found in
      elim c [
        | inl same ↦
            subst (λ x. length (attempts_of school id) ≤ attempts_allowed x) (sym same)
              (h.bounded id old f)
        | inr (hit, changed) ↦
            let more : attempts_allowed old ≤ attempts_allowed (change old) =
              grows old (subst (λ k. find_enrollment k school.enrollments ≡ some old) hit f) in
            subst (λ x. length (attempts_of school id) ≤ attempts_allowed x) (sym changed)
              (omega (arith, h.bounded id old f, more))
      ];
}

attempts_of-after-same :
    (a : Attempt) (c : Certificate) (school : School) (id : ℕ)
    → a.enrollment ≡ id
    → attempts_of (after a c school) id ≡ a ∷ attempts_of school id
unfolding attempts_of
attempts_of-after-same a c school id same =
    keep-head-true (λ (x : Attempt). x.enrollment == id) a school.attempts
      (ap (λ k. k == id) same ∙ ==-refl id)

attempts_of-after-other :
    (a : Attempt) (c : Certificate) (school : School) (id : ℕ)
    → (a.enrollment == id) ≡ false
    → attempts_of (after a c school) id ≡ attempts_of school id
unfolding attempts_of
attempts_of-after-other a c school id other =
    keep-head-false (λ (x : Attempt). x.enrollment == id) a school.attempts other

more-same :
    (b : Bool) (c : Certificate) (rows : List Certificate) (id : ℕ)
    → c.enrollment ≡ id
    → keep (λ (x : Certificate). x.enrollment == id) (more_certificates b c rows)
      ≡ more_certificates b c (keep (λ (x : Certificate). x.enrollment == id) rows)
more-same true c rows id same =
    keep-head-true (λ (x : Certificate). x.enrollment == id) c rows
      (ap (λ k. k == id) same ∙ ==-refl id)
more-same false c rows id same = refl

more-other :
    (b : Bool) (c : Certificate) (rows : List Certificate) (id : ℕ)
    → (c.enrollment == id) ≡ false
    → keep (λ (x : Certificate). x.enrollment == id) (more_certificates b c rows)
      ≡ keep (λ (x : Certificate). x.enrollment == id) rows
more-other true c rows id other =
    keep-head-false (λ (x : Certificate). x.enrollment == id) c rows other
more-other false c rows id other = refl

-- One more attempt of an enrolment that has one left and none that passed.
pub after-IsSound :
    (a : Attempt) (c : Certificate) (e : Enrollment) (school : School)
    → a.enrollment ≡ e.id
    → c.enrollment ≡ e.id
    → a.number ≡ suc (length (attempts_of school e.id))
    → some_of is_passed (attempts_of school e.id) ≡ false
    → length (attempts_of school e.id) < attempts_allowed e
    → find_enrollment e.id school.enrollments ≡ some e
    → IsSound school
    → IsSound (after a c school)
after-IsSound a c e school ha hc number unpassed fewer found h = record {
  fair = λ id. elim (Bool-cases (e.id == id)) [
    | inl same ↦
        let ids : e.id ≡ id = ==→eq e.id id same in
        subst (λ k. Fair (attempts_of (after a c school) k) (certificates_of (after a c school) k))
          ids
          (rw
            (
              attempts_of-after-same a c school e.id ha,
              more-same a.passed c school.certificates e.id hc,
            )
            (after-Fair a c (attempts_of school e.id) (certificates_of school e.id) (h.fair e.id)
              number unpassed))
    | inr other ↦
        rw
          (
            attempts_of-after-other a c school id (ap (λ k. k == id) ha ∙ other),
            more-other a.passed c school.certificates id (ap (λ k. k == id) hc ∙ other),
          )
          (h.fair id)
  ];
  bounded = λ id x f. elim (Bool-cases (e.id == id)) [
    | inl same ↦
        let ids : e.id ≡ id = ==→eq e.id id same in
        let one : e ≡ x = cc (found, f, ids) in
        let count : length (attempts_of (after a c school) id)
            ≡ suc (length (attempts_of school id)) =
          ap length (attempts_of-after-same a c school id (ha ∙ ids)) in
        let left : length (attempts_of school id) < attempts_allowed x =
          subst (λ y. length (attempts_of school id) < attempts_allowed y) one
            (subst (λ k. length (attempts_of school k) < attempts_allowed e) ids fewer) in
        omega (arith, count, left)
    | inr other ↦
        let count : length (attempts_of (after a c school) id) ≡ length (attempts_of school id) =
          ap length (attempts_of-after-other a c school id (ap (λ k. k == id) ha ∙ other)) in
        omega (arith, count, h.bounded id x f)
  ];
}

-- A new row whose key has no attempt.
pub enrolled-IsSound :
    (e : Enrollment) (school : School)
    → attempts_of school e.id ≡ []
    → IsSound school
    → IsSound (record school { enrollments = e ∷ school.enrollments })
unfolding attempts_of
enrolled-IsSound e school unused h = record {
  fair = h.fair;
  bounded = λ id x f. elim (Bool-cases (e.id == id)) [
    | inl same ↦
        let none_yet : attempts_of school id ≡ [] =
          subst (λ k. attempts_of school k ≡ []) (==→eq e.id id same)
            (unfold attempts_of in unused) in
        let count : length (attempts_of school id) ≡ 0 = ap length none_yet in omega (arith, count)
    | inr other ↦ h.bounded id x (find_tail e id school.enrollments x other f)
  ];
}
