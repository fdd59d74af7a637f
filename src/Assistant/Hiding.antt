-- ===== src/Assistant/Hiding.antt =====
-- backend/apps/ai_assistant/services.py: no value of the table stands in what `pseudonymize_text` and
-- `pseudonymize_value` give.
use rssi_as_a_service.Prelude.{
  ℕ, zero, suc, ◌≡◌, ◌≢◌, refl, ap, sym, ◌∙◌, subst, true, false, [], ◌∷◌, ◌++◌, ◌⊎◌, inl, inr,
  arith, Bool-cases, Option-cases, Memᴰ, length, ◌-◌, ==→eq, ◌==◌,
}
use mathlib.Core.List.{append_assoc}
use rssi_as_a_service.Assistant.Text.{Text, IsFree, starts_with, starts_with-cons, occurs}
use rssi_as_a_service.Assistant.Placeholder.{
  Placeholder, opening, closing, render, render_inj, body,
}
use rssi_as_a_service.Assistant.Substitution.{
  Table, alternatives, substitute, find_match, find_match-some, find_match-none, substitute-none,
  substitute-some, substitute-pass, substitute-nil, mem-alternatives, alternatives-mem,
}
use rssi_as_a_service.Assistant.Mapping.{Mapping, tokens, pseudonymize_text}
use rssi_as_a_service.Assistant.Rehydration.{pseudonymize_text-substitute, mem-tokens, tokens-mem}

-- A text without a mark that starts a text with one ends before it.
starts_before :
    (mark : ℕ) (v b y : Text)
    → IsFree mark v
    → starts_with v (b ++ (mark ∷ y)) ≡ true
    → starts_with v b ≡ true
unfolding starts_with
starts_before mark [] b y free h = refl
starts_before mark (c ∷ v) [] y free h = ground (arith, h, free.0)
starts_before mark (c ∷ v) (d ∷ b) y free h = elim (Bool-cases (c == d)) [
  | inl same ↦ rw same (starts_before mark v b y free.1 (ground (arith, h, same)))
  | inr other ↦ ground (arith, h, other)
]

-- One that is not empty stands at no mark.
not_at_mark : (mark : ℕ) (v y : Text) → v ≢ [] → IsFree mark v → starts_with v (mark ∷ y) ≡ false
unfolding starts_with
not_at_mark mark [] y filled free = absurd (filled refl)
not_at_mark mark (c ∷ v) y filled free = ground (arith, free.0)

-- One that stands in a text with a mark stands before it or after it.
occurs_around :
    (mark : ℕ) (v b y : Text)
    → v ≢ []
    → IsFree mark v
    → occurs v (b ++ (mark ∷ y)) ≡ true
    → (occurs v b ≡ true) ⊎ (occurs v y ≡ true)
unfolding occurs
occurs_around mark v [] y filled free h = inr (ground (arith, h, not_at_mark mark v y filled free))
occurs_around mark v (d ∷ b) y filled free h =
    elim (Bool-cases (starts_with v (d ∷ (b ++ (mark ∷ y))))) [
      | inl here ↦ inl (rw (starts_before mark v (d ∷ b) y free here) refl)
      | inr past ↦ elim (occurs_around mark v b y filled free (ground (arith, h, past))) [
        | inl early ↦ inl (ground (arith, early))
        | inr late ↦ inr late
      ]
    ]

-- One that stands at a mark's left edge alone: the empty text before it.
occurs_past :
    (mark : ℕ) (v y : Text)
    → v ≢ []
    → IsFree mark v
    → occurs v (mark ∷ y) ≡ true
    → occurs v y ≡ true
unfolding occurs
occurs_past mark v y filled free h = ground (arith, h, not_at_mark mark v y filled free)

-- A value without braces that stands in a token and what follows stands between the braces or in what
-- follows.
occurs_token :
    (v : Text) (q : Placeholder) (x : Text)
    → v ≢ []
    → IsFree opening v
    → IsFree closing v
    → occurs v (render q ++ x) ≡ true
    → (occurs v (body q) ≡ true) ⊎ (occurs v x ≡ true)
unfolding render
occurs_token v q x filled no_opening no_closing h =
    let inner : occurs v ((body q ++ (closing ∷ closing ∷ [])) ++ x) ≡ true =
      occurs_past opening v ((body q ++ (closing ∷ closing ∷ [])) ++ x) filled no_opening (
        occurs_past opening v (opening ∷ ((body q ++ (closing ∷ closing ∷ [])) ++ x)) filled
          no_opening h) in
    let flat : occurs v (body q ++ (closing ∷ closing ∷ x)) ≡ true =
      subst (λ t. occurs v t ≡ true) (append_assoc (body q) (closing ∷ closing ∷ []) x) inner in
    elim (occurs_around closing v (body q) (closing ∷ x) filled no_closing flat) [
      | inl early ↦ inl early
      | inr late ↦ inr (occurs_past closing v x filled no_closing late)
    ]

starts_cons :
    (c d : ℕ) (v t : Text) → starts_with (c ∷ v) (d ∷ t) ≡ true → (c ≡ d) × (starts_with v t ≡ true)
unfolding starts_with
starts_cons c d v t h = elim (Bool-cases (c == d)) [
  | inl same ↦ (==→eq c d same, ground (arith, h, same))
  | inr other ↦ ground (arith, h, other)
]

occurs_nil : (v : Text) → v ≢ [] → occurs v [] ≡ false
unfolding occurs starts_with
occurs_nil [] filled = absurd (filled refl)
occurs_nil (c ∷ v) filled = refl

occurs_cons :
    (v : Text) (c : ℕ) (t : Text)
    → starts_with v (c ∷ t) ≡ false
    → occurs v t ≡ false
    → occurs v (c ∷ t) ≡ false
unfolding occurs
occurs_cons v c t start rest = ground (arith, start, rest)

-- A text without an opening brace stands at no token.
not_at_token :
    (c : ℕ) (v : Text) (q : Placeholder) (x : Text)
    → c ≢ opening
    → starts_with (c ∷ v) (render q ++ x) ≡ true
    → ⊥
unfolding render
not_at_token c v q x plain h =
    plain (starts_cons c opening v (opening ∷ ((body q ++ (closing ∷ closing ∷ [])) ++ x)) h).0

-- Rows whose replacements are tokens.
abbrev AllTokens : Table → Type 0
AllTokens rows = (a : Text × Text) → Memᴰ a rows → (q : Placeholder) × (a.1 ≡ render q)

module _ (rows : Table) (tokens_only : AllTokens rows) where
  -- What stands at the start of the output, without a brace, stands at the start of the input.
  starts_out :
      (v s : Text)
      → IsFree opening v
      → starts_with v (substitute rows 0 s) ≡ true
      → starts_with v s ≡ true
  starts_out [] s free h = unfold starts_with in refl
  starts_out (c ∷ v) [] free h = subst (λ t. starts_with (c ∷ v) t ≡ true) (substitute-nil rows 0) h
  starts_out (c ∷ v) (d ∷ s) free h = elim (Option-cases (find_match rows (d ∷ s))) [
    | inl missing ↦
        let (same, rest) =
          starts_cons c d v (substitute rows 0 s)
            (subst (λ t. starts_with (c ∷ v) t ≡ true) (substitute-none rows d s missing) h) in
        starts_with-cons c d v s same (starts_out v s free.1 rest)
    | inr (row, found) ↦
        let (m, _) = find_match-some rows (d ∷ s) row found in
        let (q, e) = tokens_only row m in
        let tail = substitute rows (length row.0 - 1) s in
        absurd (
          not_at_token c v q tail free.0 (
            subst (λ t. starts_with (c ∷ v) t ≡ true)
              (substitute-some rows d s row found ∙ ap (λ (t : Text). t ++ tail) e) h))
  ]

  module _ (row : Text × Text) (in_rows : Memᴰ row rows) (filled : row.0 ≢ [])
      (no_opening : IsFree opening row.0) (no_closing : IsFree closing row.0)
      (apart : (a : Text × Text)
        → Memᴰ a rows
        → (q : Placeholder) → a.1 ≡ render q
        → occurs row.0 (body q) ≡ false) where
    -- A value of the table stands nowhere in the output.
    substitute-hides : (s : Text) (skip : ℕ) → occurs row.0 (substitute rows skip s) ≡ false
    substitute-hides [] skip =
        ap (occurs row.0) (substitute-nil rows skip) ∙ occurs_nil row.0 filled
    substitute-hides (c ∷ s) (suc skip) =
        ap (occurs row.0) (substitute-pass rows skip c s) ∙ substitute-hides s skip
    substitute-hides (c ∷ s) zero = elim (Option-cases (find_match rows (c ∷ s))) [
      | inl missing ↦
          let out : Text = substitute rows 0 s in
          let rest : occurs row.0 out ≡ false = substitute-hides s 0 in
          ap (occurs row.0) (substitute-none rows c s missing)
          ∙ elim (Bool-cases (starts_with row.0 (c ∷ out))) [
            | inl here ↦
                let there : starts_with row.0 (c ∷ s) ≡ true = starts_out row.0 (c ∷ s) no_opening (
                  subst (λ t. starts_with row.0 t ≡ true) (sym (substitute-none rows c s missing))
                    here) in
                absurd (cc (there, find_match-none rows (c ∷ s) row missing in_rows))
            | inr past ↦ occurs_cons row.0 c out past rest
          ]
      | inr (found_row, found) ↦
          let (m, _) = find_match-some rows (c ∷ s) found_row found in
          let (q, e) = tokens_only found_row m in
          let tail : Text = substitute rows (length found_row.0 - 1) s in
          let rest : occurs row.0 tail ≡ false = substitute-hides s (length found_row.0 - 1) in
          ap (occurs row.0)
            (substitute-some rows c s found_row found ∙ ap (λ (t : Text). t ++ tail) e)
          ∙ elim (Bool-cases (occurs row.0 (render q ++ tail))) [
            | inl stands ↦ elim (occurs_token row.0 q tail filled no_opening no_closing stands) [
              | inl early ↦ absurd (cc (early, apart found_row m q e))
              | inr late ↦ absurd (cc (late, rest))
            ]
            | inr absent ↦ absent
          ]
    ]

-- A value that may be hidden: one of the table, not empty, without braces, and in no token's name.
pub record IsHideable (value : Text) (mapping : Mapping) : Type 0 where
  pub token : Placeholder
  pub stands : Memᴰ (value, token) mapping
  pub filled : value ≢ []
  pub no_opening : IsFree opening value
  pub no_closing : IsFree closing value
  pub apart : (b : Text × Placeholder) → Memᴰ b mapping → occurs value (body b.1) ≡ false

-- A value of the table, not empty and without braces, that stands in no token's name, stands nowhere
-- in a text once it is pseudonymised.
pub pseudonymize_text-hides :
    (value : Text) (mapping : Mapping) (text : Text)
    → IsHideable value mapping
    → occurs value (pseudonymize_text text mapping) ≡ false
pseudonymize_text-hides value mapping text h =
    let rows = alternatives (tokens mapping) in
    let inside =
      alternatives-mem (tokens mapping) (value, render h.token)
        (tokens-mem mapping (value, h.token) h.stands) in
    ap (occurs value) (pseudonymize_text-substitute text mapping)
    ∙ substitute-hides rows
        (λ a m.
          let (q, _, e) = mem-tokens mapping a (mem-alternatives (tokens mapping) a m) in (q, e))
        (value, render h.token) inside h.filled h.no_opening h.no_closing
        (λ a m q e.
          let (p, k, e') = mem-tokens mapping a (mem-alternatives (tokens mapping) a m) in
          let same : p ≡ q = render_inj p q (sym e' ∙ e) in
          subst (λ r. occurs value (body r) ≡ false) same (h.apart (a.0, p) k))
        text 0
