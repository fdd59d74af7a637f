-- ===== src/Training/Following.antt =====
-- backend/apps/training/services.py: the screens seen, the place to resume at, and when the quiz opens.
use rssi_as_a_service.Prelude.{
  ℕ, suc, ◌+◌, ◌-◌, ◌≤◌, ◌≡◌, refl, ap, sym, ◌∙◌, subst, true, false, ◌||◌, ◌&&◌, List, [], ◌∷◌,
  ◌++◌, ◌==◌, length, none, some, keep, map, some_of, count_of-le-length, arith, Bool-cases, ◌⊎◌,
  inl, inr, ==-refl,
}
use rssi_as_a_service.Training.Model.{Enrollment, School, ScreenProgress}
use rssi_as_a_service.Training.Session.{
  holds, distinct, seen, screen_ids, first_unseen, etat_de_session, marquer_ecran_vu, SessionState,
  is_empty,
}
use rssi_as_a_service.Training.Counting.{
  NoRepeat, Within, holds-cons, holds-distinct, distinct-NoRepeat, pigeonhole, count-full,
}

-- The screens seen are screens of the course.
abbrev pub OfCourse : School → Enrollment → Type 0
OfCourse school e = Within (seen school e) (screen_ids e)

-- Every screen of the course is seen, and there is one.
abbrev pub Finished : School → Enrollment → Type 0
Finished school e = (is_empty (screen_ids e) ≡ false) × Within (screen_ids e) (seen school e)

seen-NoRepeat : (school : School) (e : Enrollment) → NoRepeat (seen school e)
unfolding seen
seen-NoRepeat school e = distinct-NoRepeat _

as_many :
    (vus ids : List ℕ)
    → NoRepeat vus
    → NoRepeat ids
    → Within vus ids
    → (length ids ≤ length vus → Within ids vus) × (Within ids vus → length ids ≤ length vus)
as_many vus ids once_seen once inside = (
  (λ h. count-full (holds vus) ids (omega (arith, h, pigeonhole vus ids once_seen inside))),
  (λ all. omega (arith, pigeonhole ids vus once all, count_of-le-length (holds ids) vus)),
)

-- Where every screen seen is one of the course, whose screens are distinct, the quiz is open exactly when
-- the course has a screen and all are seen.
pub etat_de_session-Finished :
    (school : School) (e : Enrollment)
    → NoRepeat (screen_ids e)
    → OfCourse school e
    → ((etat_de_session school e).quiz_unlocked ≡ true → Finished school e)
      × (Finished school e → (etat_de_session school e).quiz_unlocked ≡ true)
unfolding etat_de_session
etat_de_session-Finished school e once inside =
    let (down, up) = as_many (seen school e) (screen_ids e) (seen-NoRepeat school e) once inside in
    (
      (λ h. (ground (arith, h), down (ground (arith, h)))),
      (λ f. let more = up f.1 in ground (arith, f.0, more)),
    )

-- The place of the first screen that is not seen; or all are seen, and the rank is the last.
abbrev pub Resumes : List ℕ → List ℕ → ℕ → Type 0
Resumes vus ids rank =
    (Within ids vus × (rank ≡ length ids - 1))
    ⊎ ((before : List ℕ) × (screen : ℕ) × (after : List ℕ) × (ids ≡ before ++ (screen ∷ after))
        × Within before vus
        × (holds vus screen ≡ false)
        × (rank ≡ length before))

abbrev From : List ℕ → List ℕ → ℕ → ℕ → Type 0
From vus ids position rank =
    (Within ids vus × (rank ≡ length ids + position - 1))
    ⊎ ((before : List ℕ) × (screen : ℕ) × (after : List ℕ) × (ids ≡ before ++ (screen ∷ after))
        × Within before vus
        × (holds vus screen ≡ false)
        × (rank ≡ length before + position))

first_unseen-From :
    (vus ids : List ℕ) (position : ℕ) → From vus ids position (first_unseen vus ids position)
unfolding first_unseen
first_unseen-From vus [] position = inl (tt, omega arith)
first_unseen-From vus (x ∷ ids) position = elim (Bool-cases (holds vus x)) [
  | inl past ↦ elim (first_unseen-From vus ids (suc position)) [
    | inl (all, e) ↦ inl ((past, all), rw past (omega (arith, e)))
    | inr (before, screen, after, split, all, unseen, e) ↦ inr (
      x ∷ before,
      screen,
      after,
      ap (λ (t : List ℕ). x ∷ t) split,
      (past, all),
      unseen,
      rw past (omega (arith, e)),
    )
  ]
  | inr stop ↦ inr ([], x, ids, refl, tt, stop, rw stop (omega arith))
]

-- The session resumes at the first screen of the course that is not seen; where all are, at the last.
pub etat_de_session-Resumes :
    (school : School) (e : Enrollment)
    → Resumes (seen school e) (screen_ids e) (etat_de_session school e).resume_index
unfolding etat_de_session
etat_de_session-Resumes school e = elim (first_unseen-From (seen school e) (screen_ids e) 0) [
  | inl (all, h) ↦ inl (all, omega (arith, h))
  | inr (before, screen, after, split, all, unseen, h) ↦
      inr (before, screen, after, split, all, unseen, omega (arith, h))
]

abbrev screens_of : List ScreenProgress → ℕ → List ℕ
screens_of rows id =
    map (λ (p : ScreenProgress). p.screen) (keep (λ (p : ScreenProgress). p.enrollment == id) rows)

marked-holds :
    (rows : List ScreenProgress) (id screen : ℕ)
    → some_of (λ (p : ScreenProgress). p.enrollment == id && p.screen == screen) rows
      ≡ holds (screens_of rows id) screen
unfolding some_of keep holds
marked-holds [] id screen = refl
marked-holds (p ∷ rows) id screen = elim (Bool-cases (p.enrollment == id)) [
  | inl mine ↦ rw mine (ap (λ b. p.screen == screen || b) (marked-holds rows id screen))
  | inr theirs ↦ rw theirs (marked-holds rows id screen)
]

seen-holds :
    (school : School) (e : Enrollment) (n : ℕ)
    → holds (seen school e) n ≡ holds (screens_of school.progress e.id) n
unfolding seen
seen-holds school e n = holds-distinct (screens_of school.progress e.id) n

-- What marking a screen leaves: it is seen, what was seen is seen, and marking it again changes nothing.
abbrev pub Marked : School → Enrollment → ℕ → School × SessionState → Type 0
Marked school e screen out =
    OfCourse out.0 e
    × (holds (seen out.0 e) screen ≡ true)
    × ((n : ℕ) → holds (seen school e) n ≡ true → holds (seen out.0 e) n ≡ true)
    × (marquer_ecran_vu out.0 e screen ≡ some out)

marked : School → Enrollment → ℕ → School
marked school e screen = record school {
  progress = record { enrollment = e.id; screen = screen } ∷ school.progress;
}

marked-seen :
    (school : School) (e : Enrollment) (screen : ℕ)
    → holds (seen school e) screen ≡ false
    → seen (marked school e screen) e ≡ screen ∷ seen school e
unfolding seen marked keep distinct
marked-seen school e screen new =
    let fresh : holds (screens_of school.progress e.id) screen ≡ false =
      sym (holds-distinct (screens_of school.progress e.id) screen) ∙ new in
    rw (==-refl e.id, fresh) refl

marquer_ecran_vu-known :
    (school : School) (e : Enrollment) (screen : ℕ)
    → holds (screen_ids e) screen ≡ true
    → holds (seen school e) screen ≡ true
    → marquer_ecran_vu school e screen ≡ some (school, etat_de_session school e)
unfolding marquer_ecran_vu
marquer_ecran_vu-known school e screen inside done =
    let there =
      marked-holds school.progress e.id screen ∙ (sym (seen-holds school e screen) ∙ done) in
    rw (inside, there) refl

marquer_ecran_vu-new :
    (school : School) (e : Enrollment) (screen : ℕ)
    → holds (screen_ids e) screen ≡ true
    → holds (seen school e) screen ≡ false
    → marquer_ecran_vu school e screen
      ≡ some (marked school e screen, etat_de_session (marked school e screen) e)
unfolding marquer_ecran_vu marked
marquer_ecran_vu-new school e screen inside new =
    let there =
      marked-holds school.progress e.id screen ∙ (sym (seen-holds school e screen) ∙ new) in
    rw (inside, there) refl

marquer_ecran_vu-foreign :
    (school : School) (e : Enrollment) (screen : ℕ)
    → holds (screen_ids e) screen ≡ false
    → marquer_ecran_vu school e screen ≡ none
unfolding marquer_ecran_vu
marquer_ecran_vu-foreign school e screen outside = rw outside refl

-- What marking a screen can give.
abbrev pub Marking : School → Enrollment → ℕ → Type 0
Marking school e screen =
    ((holds (screen_ids e) screen ≡ false) × (marquer_ecran_vu school e screen ≡ none))
    ⊎ ((out : School × SessionState) × (marquer_ecran_vu school e screen ≡ some out)
        × Marked school e screen out)

-- A screen of the course can be marked as seen, and no other. Where the screens seen are of the course,
-- they still are, the marked one is among them, none is lost, and marking it again changes nothing.
pub marquer_ecran_vu-Marking :
    (school : School) (e : Enrollment) (screen : ℕ) → OfCourse school e → Marking school e screen
marquer_ecran_vu-Marking school e screen course = elim (Bool-cases (holds (screen_ids e) screen)) [
  | inl inside ↦ inr (elim (Bool-cases (holds (seen school e) screen)) [
    | inl done ↦
        let call = marquer_ecran_vu-known school e screen inside done in
        let left : Marked school e screen (school, etat_de_session school e) =
          (course, done, (λ n k. k), call) in
        ((school, etat_de_session school e), call, left)
    | inr new ↦
        let now = marked-seen school e screen new in
        let done : holds (seen (marked school e screen) e) screen ≡ true =
          ap (λ xs. holds xs screen) now
          ∙ (holds-cons screen (seen school e) screen
              ∙ ap (λ b. b || holds (seen school e) screen) (==-refl screen)) in
        let left : Marked school e screen
            (marked school e screen, etat_de_session (marked school e screen) e) =
          (
            subst (λ xs. Within xs (screen_ids e)) (sym now) (inside, course),
            done,
            (λ n k.
                ap (λ xs. holds xs n) now
                ∙ (holds-cons screen (seen school e) n ∙ ground (arith, k))),
            marquer_ecran_vu-known (marked school e screen) e screen inside done,
          ) in
        (
          (marked school e screen, etat_de_session (marked school e screen) e),
          marquer_ecran_vu-new school e screen inside new,
          left,
        )
  ])
  | inr outside ↦ inl (outside, marquer_ecran_vu-foreign school e screen outside)
]
