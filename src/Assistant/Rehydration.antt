-- ===== src/Assistant/Rehydration.antt =====
-- backend/apps/ai_assistant/services.py: `rehydrate_text` undoes `pseudonymize_text`.
use rssi_as_a_service.Prelude.{
  ◌≡◌, refl, ap, sym, ◌∙◌, [], ◌∷◌, ◌⊎◌, inl, inr, Bool-cases, Memᴰ, mem_if, sort_by,
}
use mathlib.Core.List.Memᴰ
use rssi_as_a_service.Assistant.Text.{Text, IsFree, text_eq, text_eq_sound}
use rssi_as_a_service.Assistant.Placeholder.{Placeholder, opening, render, render_inj}
use rssi_as_a_service.Assistant.Substitution.{
  Table, alternatives, substitute, substitute-empty, mem-alternatives, alternatives-mem,
}
use rssi_as_a_service.Assistant.RoundTrip.{Undoes, drop-zero, substitute-back}
use rssi_as_a_service.Assistant.Mapping.{
  Mapping, tokens, replace_all, pseudonymize_text, put, put_each, reverse, rehydrate_text,
}
use rssi_as_a_service.Assistant.Faithful.{Row, IsFaithful}

-- The guards on empty texts and tables change nothing.
replace_all-substitute :
    (rows : Table) (text : Text) → replace_all rows text ≡ substitute (alternatives rows) 0 text
unfolding replace_all
replace_all-substitute [] text = unfold alternatives sort_by in sym (substitute-empty text)
replace_all-substitute (row ∷ rows) text = refl

pub pseudonymize_text-substitute :
    (text : Text) (mapping : Mapping)
    → pseudonymize_text text mapping ≡ substitute (alternatives (tokens mapping)) 0 text
unfolding pseudonymize_text
pseudonymize_text-substitute [] mapping = unfold substitute in refl
pseudonymize_text-substitute (c ∷ s) mapping = replace_all-substitute (tokens mapping) (c ∷ s)

rehydrate_text-substitute :
    (text : Text) (mapping : Mapping)
    → rehydrate_text text mapping ≡ substitute (alternatives (reverse mapping)) 0 text
unfolding rehydrate_text
rehydrate_text-substitute [] mapping = unfold substitute in refl
rehydrate_text-substitute (c ∷ s) mapping = replace_all-substitute (reverse mapping) (c ∷ s)

pub mem-tokens :
    (mapping : Mapping) (a : Text × Text)
    → Memᴰ a (tokens mapping)
    → (p : Placeholder) × Memᴰ (a.0, p) mapping × (a.1 ≡ render p)
unfolding tokens
mem-tokens [] a m = elim m [ ]
mem-tokens (row ∷ rows) a (Memᴰ.head e) =
    (row.1, Memᴰ.head (ap (λ (b : Text × Text). (b.0, row.1)) e), ap (λ (b : Text × Text). b.1) e)
mem-tokens (row ∷ rows) a (Memᴰ.tail m) = let (p, k, e) = mem-tokens rows a m in (p, Memᴰ.tail k, e)

pub tokens-mem :
    (mapping : Mapping) (a : Row) → Memᴰ a mapping → Memᴰ (a.0, render a.1) (tokens mapping)
unfolding tokens
tokens-mem [] a m = elim m [ ]
tokens-mem (row ∷ rows) a (Memᴰ.head e) = Memᴰ.head (ap (λ (r : Row). (r.0, render r.1)) e)
tokens-mem (row ∷ rows) a (Memᴰ.tail m) = Memᴰ.tail (tokens-mem rows a m)

mem-put :
    (key real : Text) (rows : Table) (b : Text × Text)
    → Memᴰ b (put key real rows)
    → (b ≡ (key, real)) ⊎ Memᴰ b rows
unfolding put
mem-put key real [] b m = elim (Memᴰ.cases_cons m) [ inl e ↦ inl e | inr past ↦ elim past [ ] ]
mem-put key real (row ∷ rows) b m =
    elim (mem_if (text_eq row.0 key) ((key, real) ∷ rows) (row ∷ put key real rows) m) [
      | inl (_, here) ↦ elim (Memᴰ.cases_cons here) [
        | inl e ↦ inl e
        | inr past ↦ inr (Memᴰ.tail past)
      ]
      | inr (_, here) ↦ elim (Memᴰ.cases_cons here) [
        | inl e ↦ inr (Memᴰ.head e)
        | inr past ↦ elim (mem-put key real rows b past) [
          | inl e ↦ inl e
          | inr k ↦ inr (Memᴰ.tail k)
        ]
      ]
    ]

put-has : (key real : Text) (rows : Table) → Memᴰ (key, real) (put key real rows)
unfolding put
put-has key real [] = Memᴰ.head refl
put-has key real (row ∷ rows) = elim (Bool-cases (text_eq row.0 key)) [
  | inl same ↦ rw same (Memᴰ.head refl)
  | inr other ↦ rw other (Memᴰ.tail (put-has key real rows))
]

abbrev HasKey : Text → Table → Type 0
HasKey key rows = (b : Text × Text) × Memᴰ b rows × (b.0 ≡ key)

put-keeps :
    (key real : Text) (rows : Table) (k : Text) → HasKey k rows → HasKey k (put key real rows)
unfolding put
put-keeps key real [] k (b, m, e) = elim m [ ]
put-keeps key real (row ∷ rows) k (b, m, e) = elim (Bool-cases (text_eq row.0 key)) [
  | inl same ↦ rw same (elim (Memᴰ.cases_cons m) [
    | inl here ↦ (
      (key, real),
      Memᴰ.head refl,
      sym (text_eq_sound row.0 key same) ∙ (sym (ap (λ (x : Text × Text). x.0) here) ∙ e),
    )
    | inr past ↦ (b, Memᴰ.tail past, e)
  ])
  | inr other ↦ rw other (elim (Memᴰ.cases_cons m) [
    | inl here ↦ (b, Memᴰ.head here, e)
    | inr past ↦ let (b', m', e') = put-keeps key real rows k (b, past, e) in (b', Memᴰ.tail m', e')
  ])
]

put_each-keeps :
    (mapping : Mapping) (rows : Table) (k : Text) → HasKey k rows → HasKey k (put_each mapping rows)
unfolding put_each
put_each-keeps [] rows k h = h
put_each-keeps (row ∷ mapping) rows k h =
    put_each-keeps mapping (put (render row.1) row.0 rows) k
      (put-keeps (render row.1) row.0 rows k h)

put_each-has :
    (mapping : Mapping) (rows : Table) (a : Row)
    → Memᴰ a mapping
    → HasKey (render a.1) (put_each mapping rows)
unfolding put_each
put_each-has [] rows a m = elim m [ ]
put_each-has (row ∷ mapping) rows a (Memᴰ.head e) =
    put_each-keeps mapping (put (render row.1) row.0 rows) (render a.1) (
      (render row.1, row.0),
      put-has (render row.1) row.0 rows,
      ap (λ (r : Row). render r.1) (sym e),
    )
put_each-has (row ∷ mapping) rows a (Memᴰ.tail m) =
    put_each-has mapping (put (render row.1) row.0 rows) a m

-- Each row of the table back comes from one of the mapping.
abbrev Back : Mapping → Text × Text → Type 0
Back mapping b = (p : Placeholder) × Memᴰ (b.1, p) mapping × (b.0 ≡ render p)

mem-put_each :
    (mapping : Mapping) (rows : Table) (b : Text × Text)
    → Memᴰ b (put_each mapping rows)
    → Back mapping b ⊎ Memᴰ b rows
unfolding put_each
mem-put_each [] rows b m = inr m
mem-put_each (row ∷ mapping) rows b m =
    elim (mem-put_each mapping (put (render row.1) row.0 rows) b m) [
      | inl (p, k, e) ↦ inl (p, Memᴰ.tail k, e)
      | inr k ↦ elim (mem-put (render row.1) row.0 rows b k) [
        | inl e ↦ inl (
          row.1,
          Memᴰ.head (ap (λ (x : Text × Text). (x.1, row.1)) e),
          ap (λ (x : Text × Text). x.0) e,
        )
        | inr old ↦ inr old
      ]
    ]

mem-reverse : (mapping : Mapping) (b : Text × Text) → Memᴰ b (reverse mapping) → Back mapping b
unfolding reverse
mem-reverse mapping b m = elim (mem-put_each mapping [] b m) [
  | inl back ↦ back
  | inr none ↦ elim none [ ]
]

mem-forth :
    (mapping : Mapping) (a : Text × Text)
    → Memᴰ a (alternatives (tokens mapping))
    → (p : Placeholder) × Memᴰ (a.0, p) mapping × (a.1 ≡ render p)
mem-forth mapping a m = mem-tokens mapping a (mem-alternatives (tokens mapping) a m)

mem-Back :
    (mapping : Mapping) (b : Text × Text) → Memᴰ b (alternatives (reverse mapping)) → Back mapping b
mem-Back mapping b m = mem-reverse mapping b (mem-alternatives (reverse mapping) b m)

mapping-Undoes :
    (mapping : Mapping)
    → IsFaithful mapping
    → Undoes (alternatives (tokens mapping)) (alternatives (reverse mapping))
mapping-Undoes mapping h = record {
  filled = λ a m. let (p, k, e) = mem-forth mapping a m in h.filled (a.0, p) k;
  is_token = λ a m. let (p, k, e) = mem-forth mapping a m in (p, e);
  reads_token = λ b m. let (p, k, e) = mem-Back mapping b m in (p, e);
  returns = λ a b ma mb same.
      let (p, ka, ea) = mem-forth mapping a ma in
      let (q, kb, eb) = mem-Back mapping b mb in
      let tokens_agree : p ≡ q = render_inj p q (sym ea ∙ (same ∙ eb)) in
      h.unshared (a.0, p) (b.1, q) ka kb tokens_agree;
  covers = λ a m.
      let (p, k, e) = mem-forth mapping a m in
      let (b, kb, eb) = put_each-has mapping [] (a.0, p) k in
      (b, alternatives-mem (reverse mapping) b (unfold reverse in kb), eb ∙ sym e);
}

-- Where no token of the table stands for two values, a text without `{` that was pseudonymised is
-- rehydrated into itself.
pub rehydrate_text-pseudonymize_text :
    (mapping : Mapping) (text : Text)
    → IsFaithful mapping
    → IsFree opening text
    → rehydrate_text (pseudonymize_text text mapping) mapping ≡ text
rehydrate_text-pseudonymize_text mapping text h free =
    let forth = alternatives (tokens mapping) in
    let back = alternatives (reverse mapping) in
    rehydrate_text-substitute (pseudonymize_text text mapping) mapping
    ∙ (ap (substitute back 0) (pseudonymize_text-substitute text mapping)
        ∙ (substitute-back forth back (mapping-Undoes mapping h) text 0 free ∙ drop-zero text))
