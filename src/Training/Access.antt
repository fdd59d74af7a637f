-- ===== src/Training/Access.antt =====
-- backend/apps/training/services.py: what becomes of a link that is withdrawn or renewed.
use rssi_as_a_service.Prelude.{
  ℕ, String, ◌≡◌, refl, ap, sym, ◌∙◌, true, false, List, [], ◌∷◌, some, ◌==◌, if◌then◌else◌, str_eq,
  eq_iff, inl, inr, err, arith, Bool-cases, ==-refl,
}
use rssi_as_a_service.Training.Model.{Enrollment, School, is_revoked, is_usable}
use rssi_as_a_service.Training.Links.{
  session_introuvable, find_token, change_enrollment, save_enrollment, resoudre_session,
  demander_un_acces, revoquer,
}

-- The head of a table, by its token.
token_head :
    (r : Enrollment) (hashed : String) (rows : List Enrollment)
    → str_eq r.token_hash hashed ≡ true
    → find_token hashed (r ∷ rows) ≡ some r
unfolding find_token
token_head r hashed rows hit = rw hit refl

token_tail :
    (r : Enrollment) (hashed : String) (rows : List Enrollment)
    → str_eq r.token_hash hashed ≡ false
    → find_token hashed (r ∷ rows) ≡ find_token hashed rows
unfolding find_token
token_tail r hashed rows miss = rw miss refl

change_head :
    (change : Enrollment → Enrollment) (id : ℕ) (r : Enrollment) (rows : List Enrollment)
    → change_enrollment change id (r ∷ rows) ≡ (
        if r.id == id
        then change r ∷ change_enrollment change id rows
        else r ∷ change_enrollment change id rows)
unfolding change_enrollment
change_head change id r rows = refl

-- A change that keeps the tokens changes the row that a token finds.
find_token-change :
    (change : Enrollment → Enrollment) (hashed : String) (e : Enrollment) (rows : List Enrollment)
    → ((r : Enrollment) → (change r).token_hash ≡ r.token_hash)
    → find_token hashed rows ≡ some e
    → find_token hashed (change_enrollment change e.id rows) ≡ some (change e)
find_token-change change hashed e [] keeps h = unfold find_token in cc h
find_token-change change hashed e (r ∷ rows) keeps h =
    elim (Bool-cases (str_eq r.token_hash hashed)) [
      | inl hit ↦
          let one : r ≡ e = cc (token_head r hashed rows hit, h) in
          let mine : r.id == e.id ≡ true =
            ap (λ (x : Enrollment). x.id == e.id) one ∙ ==-refl e.id in
          let still : str_eq (change r).token_hash hashed ≡ true =
            ap (λ t. str_eq t hashed) (keeps r) ∙ hit in
          ap (find_token hashed) (change_head change e.id r rows ∙ rw mine refl)
          ∙ (token_head (change r) hashed (change_enrollment change e.id rows) still
              ∙ ap (λ x. some (change x)) one)
      | inr miss ↦
          let later : find_token hashed rows ≡ some e = sym (token_tail r hashed rows miss) ∙ h in
          let rest = find_token-change change hashed e rows keeps later in
          ap (find_token hashed) (change_head change e.id r rows)
          ∙ elim (Bool-cases (r.id == e.id)) [
            | inl mine ↦
                let still : str_eq (change r).token_hash hashed ≡ false =
                  ap (λ t. str_eq t hashed) (keeps r) ∙ miss in
                rw mine
                  (token_tail (change r) hashed (change_enrollment change e.id rows) still ∙ rest)
            | inr other ↦
                rw other (token_tail r hashed (change_enrollment change e.id rows) miss ∙ rest)
          ]
    ]

module _ (hacher : String → String) (end_of : ℕ → ℕ) (margin : ℕ) where
  -- A link that opens nothing: no course, no request for an access.
  abbrev pub Dead : String → ℕ → School → Type 0
  Dead jeton later school =
      (resoudre_session hacher end_of margin later jeton school ≡ err session_introuvable)
      × (demander_un_acces hacher later jeton school ≡ err session_introuvable)

  revoked-Dead :
      (jeton : String) (later : ℕ) (e : Enrollment) (school : School)
      → find_token (hacher jeton) school.enrollments ≡ some e
      → is_revoked e ≡ true
      → Dead jeton later school
  unfolding resoudre_session demander_un_acces is_usable
  revoked-Dead jeton later e school found gone =
      (ground (arith, found, gone, eq_iff jeton ""), ground (arith, found, gone))

  -- After its enrolment is withdrawn, a link opens nothing at any moment.
  pub revoquer-Dead :
      (jeton : String) (now later : ℕ) (e : Enrollment) (school : School)
      → find_token (hacher jeton) school.enrollments ≡ some e
      → Dead jeton later (revoquer now e school)
  unfolding revoquer is_revoked
  revoquer-Dead jeton now later e school found = elim (Bool-cases (is_revoked e)) [
    | inl gone ↦ rw gone (revoked-Dead jeton later e school found gone)
    | inr live ↦
        let change : Enrollment → Enrollment = λ row. record row { revoked_at = some now } in
        rw live (
          revoked-Dead jeton later (change e) (save_enrollment change e.id school)
            (unfold save_enrollment in
              find_token-change change (hacher jeton) e school.enrollments (λ r. refl) found)
            refl)
  ]
