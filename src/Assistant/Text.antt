-- ===== src/Assistant/Text.antt =====
-- A text as the list of its code points: prefixes, occurrences, and the decimal digits of `str(n)`.
use rssi_as_a_service.Prelude.{
  ℕ, zero, suc, ◌+◌, ◌*◌, ◌-◌, ◌/◌, ◌%◌, ◌≤◌, ◌<◌, ◌≡◌, ◌≢◌, refl, ap, sym, ◌∙◌, Bool, true, false,
  ◌&&◌, ◌||◌, List, [], ◌∷◌, ◌++◌, ◌==◌, ltb, if◌then◌else◌, arith, Bool-cases, inl, inr, ==→eq,
  ==-refl,
}

abbrev pub Text : Type 0
Text = List ℕ

-- `s.startswith(v)`
unfoldable pub starts_with : Text → Text → Bool
starts_with [] s = true
starts_with (v ∷ vs) [] = false
starts_with (v ∷ vs) (c ∷ s) = let rest = starts_with vs s in if v == c then rest else false

-- `v in s`
unfoldable pub occurs : Text → Text → Bool
unfolding starts_with
occurs v [] = starts_with v []
occurs v (c ∷ s) = starts_with v (c ∷ s) || occurs v s

-- A code point that stands nowhere in a text.
abbrev pub IsFree : ℕ → Text → Type 0
IsFree c [] = Unit
IsFree c (x ∷ xs) = (x ≢ c) × IsFree c xs

pub starts_with-append : (v s : Text) → starts_with v (v ++ s) ≡ true
unfolding starts_with
starts_with-append [] s = refl
starts_with-append (c ∷ v) s = rw (==-refl c) (starts_with-append v s)

-- What follows a prefix.
pub rest_of : (v s : Text) → starts_with v s ≡ true → (rest : Text) × (s ≡ v ++ rest)
unfolding starts_with
rest_of [] s h = (s, refl)
rest_of (v ∷ vs) [] h = cc h
rest_of (v ∷ vs) (c ∷ s) h = elim (Bool-cases (v == c)) [
  | inl same ↦ let (rest, e) = rest_of vs s (ground (arith, same)) in (rest, cc (e, ==→eq v c same))
  | inr other ↦ cc (h, other)
]

pub IsFree-append : (c : ℕ) (xs ys : Text) → IsFree c xs → IsFree c ys → IsFree c (xs ++ ys)
IsFree-append c [] ys h k = k
IsFree-append c (x ∷ xs) ys h k = (h.0, IsFree-append c xs ys h.1 k)

-- Two texts that go on with the same mark, and do not hold it before, are the same up to it.
pub until_mark :
    (c : ℕ) (a b x y : Text)
    → IsFree c a
    → IsFree c b
    → a ++ (c ∷ x) ≡ b ++ (c ∷ y)
    → (a ≡ b) × (x ≡ y)
until_mark c [] [] x y h k e = (refl, ground (arith, e))
until_mark c [] (b ∷ bs) x y h k e = ground (arith, k.0, e)
until_mark c (a ∷ as') [] x y h k e = ground (arith, h.0, e)
until_mark c (a ∷ as') (b ∷ bs) x y h k e =
    let (same, rest) = until_mark c as' bs x y h.1 k.1 (ground (arith, e)) in
    (ground (arith, e, same), rest)

-- The decimal digits, the last one by the remainder; `fuel` bounds their number.
unfoldable pub digits_within : ℕ → ℕ → Text
digits_within zero n = []
digits_within (suc fuel) n =
    let front = digits_within fuel (n / 10) in
    if ltb n 10 then (b'0' + n) ∷ [] else front ++ ((b'0' + n % 10) ∷ [])

-- `str(n)`: a number has no more digits than itself, and one more for 0.
unfoldable pub str : ℕ → Text
unfolding digits_within
str n = digits_within (suc n) n

unfoldable pub read_on : ℕ → Text → ℕ
read_on acc [] = acc
read_on acc (d ∷ ds) = read_on (acc * 10 + (d - b'0')) ds

read_on-append :
    (acc : ℕ) (ds : Text) (d : ℕ) → read_on acc (ds ++ (d ∷ [])) ≡ read_on acc ds * 10 + (d - b'0')
unfolding read_on
read_on-append acc [] d = refl
read_on-append acc (x ∷ ds) d = read_on-append (acc * 10 + (x - b'0')) ds d

read_on-digits_within : (fuel n : ℕ) → n < fuel → read_on 0 (digits_within fuel n) ≡ n
unfolding digits_within
read_on-digits_within zero n h = omega arith
read_on-digits_within (suc fuel) n h = elim (Bool-cases (ltb n 10)) [
  | inl small ↦ rw small (unfold read_on in (omega arith))
  | inr big ↦
      let tens : 10 ≤ n = ground (arith, big) in
      let front = read_on-digits_within fuel (n / 10) (omega (arith, tens, h)) in
      rw big (read_on-append 0 (digits_within fuel (n / 10)) (b'0' + n % 10) ∙ omega (arith, front))
]

-- The decimal rendering tells numbers apart.
pub str_inj : (m n : ℕ) → str m ≡ str n → m ≡ n
unfolding str
str_inj m n e =
    sym (read_on-digits_within (suc m) m (omega arith))
    ∙ (ap (read_on 0) e ∙ read_on-digits_within (suc n) n (omega arith))

digits_within-IsFree : (c fuel n : ℕ) → b'9' < c → IsFree c (digits_within fuel n)
unfolding digits_within
digits_within-IsFree c zero n h = tt
digits_within-IsFree c (suc fuel) n h = elim (Bool-cases (ltb n 10)) [
  | inl small ↦ rw small (ground (arith, small, h), tt)
  | inr big ↦ rw big (
      IsFree-append c (digits_within fuel (n / 10)) ((b'0' + n % 10) ∷ [])
        (digits_within-IsFree c fuel (n / 10) h) (omega (arith, h), tt))
]

pub str-IsFree : (c n : ℕ) → b'9' < c → IsFree c (str n)
unfolding str
str-IsFree c n h = digits_within-IsFree c (suc n) n h

-- `a == b` on texts.
unfoldable pub text_eq : Text → Text → Bool
text_eq [] [] = true
text_eq [] (d ∷ t) = false
text_eq (c ∷ s) [] = false
text_eq (c ∷ s) (d ∷ t) = (c == d) && text_eq s t

pub text_eq_sound : (s t : Text) → text_eq s t ≡ true → s ≡ t
unfolding text_eq
text_eq_sound [] [] h = refl
text_eq_sound [] (d ∷ t) h = cc h
text_eq_sound (c ∷ s) [] h = cc h
text_eq_sound (c ∷ s) (d ∷ t) h = elim (Bool-cases (c == d)) [
  | inl same ↦ cc (==→eq c d same, text_eq_sound s t (ground (arith, h, same)))
  | inr other ↦ ground (arith, h, other)
]

pub text_eq_refl : (s : Text) → text_eq s s ≡ true
unfolding text_eq
text_eq_refl [] = refl
text_eq_refl (c ∷ s) = rw (==-refl c) (text_eq_refl s)

pub starts_with-cons :
    (c d : ℕ) (v t : Text) → c ≡ d → starts_with v t ≡ true → starts_with (c ∷ v) (d ∷ t) ≡ true
unfolding starts_with
starts_with-cons c d v t same h = rw (same, ==-refl d) h
