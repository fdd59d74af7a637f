-- ===== src/Assistant/Placeholder.antt =====
-- backend/apps/ai_assistant/services.py, the tokens `{{COMPANY}}` and `{{KIND_n}}` that stand for the
-- real values.
use rssi_as_a_service.Prelude.{
  ℕ, ◌<◌, ◌≡◌, ◌≢◌, refl, ap, sym, ◌∙◌, subst, true, [], ◌∷◌, ◌++◌, arith,
}
use mathlib.Core.List.{append_assoc}
use rssi_as_a_service.Assistant.Text.{
  Text, IsFree, IsFree-append, until_mark, str, str_inj, str-IsFree, starts_with, rest_of,
  starts_with-append,
}

pub data Kind : Type 0 where
  member email url domain : Kind

pub data Placeholder : Type 0 where
  company : Placeholder
  numbered : Kind → ℕ → Placeholder

-- The words « COMPANY », « MEMBER », « EMAIL », « URL », « DOMAIN ».
abbrev pub company_word : Text
company_word = b'C' ∷ b'O' ∷ b'M' ∷ b'P' ∷ b'A' ∷ b'N' ∷ b'Y' ∷ []

unfoldable pub word : Kind → Text
word member = b'M' ∷ b'E' ∷ b'M' ∷ b'B' ∷ b'E' ∷ b'R' ∷ []
word email = b'E' ∷ b'M' ∷ b'A' ∷ b'I' ∷ b'L' ∷ []
word url = b'U' ∷ b'R' ∷ b'L' ∷ []
word domain = b'D' ∷ b'O' ∷ b'M' ∷ b'A' ∷ b'I' ∷ b'N' ∷ []

-- What stands between the braces.
unfoldable pub body : Placeholder → Text
unfolding word
body company = company_word
body (numbered kind n) = word kind ++ (b'_' ∷ str n)

abbrev pub opening : ℕ
opening = b'{'

abbrev pub closing : ℕ
closing = b'}'

unfoldable pub render : Placeholder → Text
unfolding body
render p = opening ∷ opening ∷ (body p ++ (closing ∷ closing ∷ []))

word-IsFree : (c : ℕ) (kind : Kind) → b'Z' < c → IsFree c (word kind)
unfolding word
word-IsFree c member h = omega (arith, h)
word-IsFree c email h = omega (arith, h)
word-IsFree c url h = omega (arith, h)
word-IsFree c domain h = omega (arith, h)

-- No brace stands between the braces.
pub body-IsFree : (c : ℕ) (p : Placeholder) → b'_' < c → IsFree c (body p)
unfolding body
body-IsFree c company h = omega (arith, h)
body-IsFree c (numbered kind n) h =
    IsFree-append c (word kind) (b'_' ∷ str n) (word-IsFree c kind (omega (arith, h)))
      (omega (arith, h), str-IsFree c n (omega (arith, h)))

-- Words that go on with the same mark are of one kind.
word_inj : (j k : Kind) → word j ≡ word k → j ≡ k
unfolding word
word_inj j k e = ground (arith, e)

-- No kind's word begins « COMPANY ».
company-word : (k : Kind) (digits : Text) → company_word ≢ word k ++ (b'_' ∷ digits)
unfolding word
company-word member digits e = ground (arith, e)
company-word email digits e = ground (arith, e)
company-word url digits e = ground (arith, e)
company-word domain digits e = ground (arith, e)

body_inj : (p q : Placeholder) → body p ≡ body q → p ≡ q
unfolding body
body_inj company company e = refl
body_inj company (numbered k n) e = ground (arith, company-word k (str n) e)
body_inj (numbered k n) company e = ground (arith, company-word k (str n) (sym e))
body_inj (numbered j m) (numbered k n) e =
    let (words, numbers) =
      until_mark b'_' (word j) (word k) (str m) (str n) (word-IsFree b'_' j (omega arith))
        (word-IsFree b'_' k (omega arith)) e in
    let kinds = word_inj j k words in let indices = str_inj m n numbers in cc (kinds, indices)

abbrev ending : Text
ending = closing ∷ closing ∷ []

abbrev drop_two : Text → Text
drop_two (a ∷ b ∷ t) = t
drop_two _ = []

-- A text begins with one token at most.
pub render_unique :
    (p q : Placeholder) (x : Text) → starts_with (render p) (render q ++ x) ≡ true → p ≡ q
unfolding render
render_unique p q x h =
    let (rest, e) = rest_of (render p) (render q ++ x) h in
    let bodies : body q ++ (closing ∷ closing ∷ x) ≡ body p ++ (closing ∷ closing ∷ rest) =
      sym (append_assoc (body q) ending x)
      ∙ (ap (λ t. drop_two t) e ∙ append_assoc (body p) ending rest) in
    let (same, _) =
      until_mark closing (body q) (body p) (closing ∷ x) (closing ∷ rest)
        (body-IsFree closing q (omega arith)) (body-IsFree closing p (omega arith)) bodies in
    body_inj p q (sym same)

pub render_inj : (p q : Placeholder) → render p ≡ render q → p ≡ q
render_inj p q e =
    render_unique p q [] (
      subst (λ t. starts_with t (render q ++ []) ≡ true) (sym e) (starts_with-append (render q) []))
