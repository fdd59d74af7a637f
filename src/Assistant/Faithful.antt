-- ===== src/Assistant/Faithful.antt =====
-- backend/apps/ai_assistant/services.py: the table of a client gives no token to two values.
use rssi_as_a_service.Prelude.{
  ℕ, suc, ◌≤◌, ◌≡◌, ◌≢◌, refl, ap, sym, ◌∙◌, subst, true, [], ◌∷◌, ◌++◌, none, some, ◌⊎◌, inl, inr,
  arith, Bool-cases, Memᴰ,
}
use mathlib.Core.List.Memᴰ
use rssi_as_a_service.Assistant.Text.{Text}
use rssi_as_a_service.Assistant.Placeholder.{
  Kind, member, email, url, domain, Placeholder, company, numbered,
}
use rssi_as_a_service.Assistant.Mapping.{
  Mapping, Counters, same_kind, is_mapped, bump, raise_to, raise_each, new_row, bumped, enter,
}

abbrev pub Row : Type 0
Row = Text × Placeholder

-- Every value is a text, and no token stands for two.
pub record IsFaithful (mapping : Mapping) : Type 0 where
  pub filled : (a : Row) → Memᴰ a mapping → a.0 ≢ []
  pub unshared : (a b : Row) → Memᴰ a mapping → Memᴰ b mapping → a.1 ≡ b.1 → a.0 ≡ b.0

-- No counter is behind a token that was given.
abbrev pub Counted : Mapping → Counters → Type 0
Counted mapping counters =
    (value : Text) (kind : Kind) (n : ℕ) → Memᴰ (value, numbered kind n) mapping → n ≤ counters kind

pub mem_snoc :
    (rows : Mapping) (last : Row) {a : Row}
    → Memᴰ a (rows ++ (last ∷ []))
    → Memᴰ a rows ⊎ (a ≡ last)
mem_snoc rows last m = elim (Memᴰ.append_cases rows m) [
  | inl old ↦ inl old
  | inr new ↦ elim (Memᴰ.cases_cons new) [ inl e ↦ inr e | inr past ↦ elim past [ ] ]
]

same_kind_refl : (k : Kind) → same_kind k k ≡ true
unfolding same_kind
same_kind_refl member = refl
same_kind_refl email = refl
same_kind_refl url = refl
same_kind_refl domain = refl

same_kind_sound : (j k : Kind) → same_kind j k ≡ true → j ≡ k
unfolding same_kind
same_kind_sound j k h = ground (arith, h)

raise_to-le :
    (p : Placeholder) (counters : Counters) (k : Kind) → counters k ≤ raise_to p counters k
unfolding raise_to
raise_to-le company counters k = omega arith
raise_to-le (numbered j n) counters k = elim (Bool-cases (same_kind k j)) [
  | inl same ↦ rw (same, same_kind_sound k j same) (ground arith)
  | inr other ↦ rw other (omega arith)
]

raise_to-reaches : (k : Kind) (n : ℕ) (counters : Counters) → n ≤ raise_to (numbered k n) counters k
unfolding raise_to
raise_to-reaches k n counters = rw (same_kind_refl k) (ground arith)

raise_each-le :
    (rows : Mapping) (counters : Counters) (k : Kind) → counters k ≤ raise_each rows counters k
unfolding raise_each
raise_each-le [] counters k = omega arith
raise_each-le (row ∷ rows) counters k =
    omega (arith, raise_to-le row.1 counters k, raise_each-le rows (raise_to row.1 counters) k)

pub raise_each-Counted :
    (rows : Mapping) (counters : Counters) → Counted rows (raise_each rows counters)
unfolding raise_each
raise_each-Counted [] counters value k n m = elim m [ ]
raise_each-Counted (row ∷ rows) counters value k n (Memᴰ.head e) =
    let reached : n ≤ raise_to row.1 counters k =
      subst (λ (r : Row). n ≤ raise_to r.1 counters k) e (raise_to-reaches k n counters) in
    omega (arith, reached, raise_each-le rows (raise_to row.1 counters) k)
raise_each-Counted (row ∷ rows) counters value k n (Memᴰ.tail m) =
    raise_each-Counted rows (raise_to row.1 counters) value k n m

-- A row that shares its token with no other value may follow.
snoc-IsFaithful :
    (mapping : Mapping) (row : Row)
    → IsFaithful mapping
    → row.0 ≢ []
    → ((a : Row) → Memᴰ a mapping → a.1 ≡ row.1 → a.0 ≡ row.0)
    → IsFaithful (mapping ++ (row ∷ []))
snoc-IsFaithful mapping row h filled apart = record {
  filled = λ a m. elim (mem_snoc mapping row m) [
    | inl old ↦ h.filled a old
    | inr new ↦ λ e. filled (sym (ap (λ (r : Row). r.0) new) ∙ e)
  ];
  unshared = λ a b ma mb e. elim (mem_snoc mapping row ma) [
    | inl old ↦ elim (mem_snoc mapping row mb) [
      | inl older ↦ h.unshared a b old older e
      | inr new ↦ apart a old (e ∙ ap (λ (r : Row). r.1) new) ∙ sym (ap (λ (r : Row). r.0) new)
    ]
    | inr new ↦ elim (mem_snoc mapping row mb) [
      | inl old ↦ ap (λ (r : Row). r.0) new ∙ sym (apart b old (sym e ∙ ap (λ (r : Row). r.1) new))
      | inr newer ↦ ap (λ (r : Row). r.0) (new ∙ sym newer)
    ]
  ];
}

bump-Counted :
    (mapping : Mapping) (counters : Counters) (value : Text) (kind : Kind)
    → Counted mapping counters
    → Counted (mapping ++ ((value, numbered kind (suc (counters kind))) ∷ [])) (bump kind counters)
unfolding bump
bump-Counted mapping counters value kind h v k n m =
    elim (mem_snoc mapping (value, numbered kind (suc (counters kind))) m) [
      | inl old ↦ elim (Bool-cases (same_kind k kind)) [
        | inl same ↦ rw (same, sym (same_kind_sound k kind same)) (omega (arith, h v k n old))
        | inr other ↦ rw other (h v k n old)
      ]
      | inr new ↦
          let token : numbered k n ≡ numbered kind (suc (counters kind)) =
            ap (λ (r : Row). r.1) new in
          let kinds : k ≡ kind = cc token in
          let size : n ≡ suc (counters kind) = cc token in
          rw (kinds, same_kind_refl kind) (omega (arith, size))
    ]

abbrev pub Sound : Mapping × Counters → Type 0
Sound state = IsFaithful state.0 × Counted state.0 state.1

-- The company's tokens stand for this name alone.
abbrev pub Named : Text → Mapping → Type 0
Named name mapping = (value : Text) → Memᴰ (value, company) mapping → value ≡ name

pub enter-some-Sound :
    (value : Text) (kind : Kind) (state : Mapping × Counters)
    → Sound state
    → Sound (enter value (some kind) state)
unfolding enter new_row bumped
enter-some-Sound [] kind state h = h
enter-some-Sound (c ∷ v) kind (mapping, counters) h =
    elim (Bool-cases (is_mapped (c ∷ v) mapping)) [
      | inl old ↦ rw old h
      | inr new ↦ rw new (
        snoc-IsFaithful mapping (c ∷ v, numbered kind (suc (counters kind))) h.0 (λ e. cc e)
            (λ a m e.
              let behind : suc (counters kind) ≤ counters kind =
                h.1 a.0 kind (suc (counters kind)) (subst (λ p. Memᴰ (a.0, p) mapping) e m) in
              absurd (omega (arith, behind))),
        bump-Counted mapping counters (c ∷ v) kind h.1,
      )
    ]

company-Counted :
    (mapping : Mapping) (counters : Counters) (value : Text)
    → Counted mapping counters
    → Counted (mapping ++ ((value, company) ∷ [])) counters
company-Counted mapping counters value h v k n m = elim (mem_snoc mapping (value, company) m) [
  | inl old ↦ h v k n old
  | inr new ↦ let token : numbered k n ≡ company = ap (λ (r : Row). r.1) new in cc token
]

pub enter-none-Sound :
    (value : Text) (state : Mapping × Counters)
    → Named value state.0
    → Sound state
    → Sound (enter value none state)
unfolding enter new_row bumped
enter-none-Sound [] state named h = h
enter-none-Sound (c ∷ v) (mapping, counters) named h =
    elim (Bool-cases (is_mapped (c ∷ v) mapping)) [
      | inl old ↦ rw old h
      | inr new ↦ rw new (
        snoc-IsFaithful mapping (c ∷ v, company) h.0 (λ e. cc e)
            (λ a m e. named a.0 (subst (λ p. Memᴰ (a.0, p) mapping) e m)),
        company-Counted mapping counters (c ∷ v) h.1,
      )
    ]
