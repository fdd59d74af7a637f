-- ===== src/Assistant/Collection.antt =====
-- backend/apps/ai_assistant/services.py: what `collect_sensitive_values` leaves in the table.
use rssi_as_a_service.Prelude.{
  suc, ◌≡◌, refl, ap, subst, true, List, [], ◌∷◌, ◌++◌, Option, none, some, ◌⊎◌, inl, inr, some_of,
  arith, Bool-cases, Memᴰ, All,
}
use mathlib.Core.List.Memᴰ
use rssi_as_a_service.Assistant.Text.{Text, text_eq, text_eq_sound}
use rssi_as_a_service.Assistant.Placeholder.{Kind, Placeholder, company, numbered}
use rssi_as_a_service.Assistant.Mapping.{
  Mapping, Counters, is_mapped, counters_from_mapping, Client, new_row, enter, add_value, add_each,
  later_values, collect_sensitive_values,
}
use rssi_as_a_service.Assistant.Faithful.{
  Row, IsFaithful, Sound, Named, mem_snoc, enter-some-Sound, enter-none-Sound, raise_each-Counted,
}

abbrev pub Keeps : Mapping → Mapping → Type 0
Keeps old new = (a : Row) → Memᴰ a old → Memᴰ a new

-- A value without a row is the empty one.
abbrev pub Known : Mapping → Text → Type 0
Known mapping value = (value ≡ []) ⊎ ((p : Placeholder) × Memᴰ (value, p) mapping)

mem_snoc-old : (rows : Mapping) (last : Row) → Keeps rows (rows ++ (last ∷ []))
mem_snoc-old rows last a m = Memᴰ.append_left (last ∷ []) m

mem_snoc-new : (rows : Mapping) (last : Row) → Memᴰ last (rows ++ (last ∷ []))
mem_snoc-new rows last = Memᴰ.append_right rows (Memᴰ.head refl)

mapped_row :
    (value : Text) (rows : Mapping)
    → is_mapped value rows ≡ true
    → (p : Placeholder) × Memᴰ (value, p) rows
unfolding is_mapped some_of
mapped_row value [] h = cc h
mapped_row value (row ∷ rows) h = elim (Bool-cases (text_eq row.0 value)) [
  | inl here ↦ (row.1, Memᴰ.head (cc (text_eq_sound row.0 value here)))
  | inr there ↦ let (p, m) = mapped_row value rows (ground (arith, h, there)) in (p, Memᴰ.tail m)
]

enter-Keeps :
    (value : Text) (kind : Option Kind) (state : Mapping × Counters)
    → Keeps state.0 (enter value kind state).0
unfolding enter
enter-Keeps [] kind state a m = m
enter-Keeps (c ∷ v) kind (mapping, counters) a m = elim (Bool-cases (is_mapped (c ∷ v) mapping)) [
  | inl old ↦ rw old m
  | inr new ↦ rw new (mem_snoc-old mapping (new_row (c ∷ v) kind counters) a m)
]

new_row-value :
    (value : Text) (kind : Option Kind) (counters : Counters)
    → (new_row value kind counters).0 ≡ value
unfolding new_row
new_row-value value none counters = refl
new_row-value value (some kind) counters = refl

enter-Known :
    (value : Text) (kind : Option Kind) (state : Mapping × Counters)
    → Known (enter value kind state).0 value
unfolding enter
enter-Known [] kind state = inl refl
enter-Known (c ∷ v) kind (mapping, counters) = elim (Bool-cases (is_mapped (c ∷ v) mapping)) [
  | inl old ↦ rw old (inr (mapped_row (c ∷ v) mapping old))
  | inr new ↦ rw new (
      let row = new_row (c ∷ v) kind counters in
      inr (
        row.1,
        subst (λ (t : Text). Memᴰ (t, row.1) (mapping ++ (row ∷ [])))
            (new_row-value (c ∷ v) kind counters) (mem_snoc-new mapping row),
      ))
]

Keeps-Known : (old new : Mapping) (value : Text) → Keeps old new → Known old value → Known new value
Keeps-Known old new value h (inl e) = inl e
Keeps-Known old new value h (inr (p, m)) = inr (p, h (value, p) m)

enter-some-Named :
    (value name : Text) (kind : Kind) (state : Mapping × Counters)
    → Named name state.0
    → Named name (enter value (some kind) state).0
unfolding enter new_row
enter-some-Named [] name kind state h = h
enter-some-Named (c ∷ v) name kind (mapping, counters) h =
    elim (Bool-cases (is_mapped (c ∷ v) mapping)) [
      | inl old ↦ rw old h
      | inr new ↦ rw new (λ value m.
          elim (mem_snoc mapping (c ∷ v, numbered kind (suc (counters kind))) m) [
            | inl before ↦ h value before
            | inr last ↦
                let token : company ≡ numbered kind (suc (counters kind)) =
                  ap (λ (r : Row). r.1) last in
                cc token
          ])
    ]

enter-none-Named :
    (value : Text) (state : Mapping × Counters)
    → Named value state.0
    → Named value (enter value none state).0
unfolding enter new_row
enter-none-Named [] state h = h
enter-none-Named (c ∷ v) (mapping, counters) h = elim (Bool-cases (is_mapped (c ∷ v) mapping)) [
  | inl old ↦ rw old h
  | inr new ↦ rw new (λ value m. elim (mem_snoc mapping (c ∷ v, company) m) [
    | inl before ↦ h value before
    | inr last ↦ ap (λ (r : Row). r.0) last
  ])
]

module _ (strip : Text → Text) where
  add_each-Named :
      (name : Text) (calls : List (Kind × Text)) (state : Mapping × Counters)
      → Named name state.0
      → Named name (add_each strip state calls).0
  unfolding add_each add_value
  add_each-Named name [] state h = h
  add_each-Named name ((kind, value) ∷ calls) state h =
      add_each-Named name calls (enter (strip value) (some kind) state)
        (enter-some-Named (strip value) name kind state h)

  add_each-Sound :
      (calls : List (Kind × Text)) (state : Mapping × Counters)
      → Sound state
      → Sound (add_each strip state calls)
  unfolding add_each add_value
  add_each-Sound [] state h = h
  add_each-Sound ((kind, value) ∷ calls) state h =
      add_each-Sound calls (enter (strip value) (some kind) state)
        (enter-some-Sound (strip value) kind state h)

  add_each-Keeps :
      (calls : List (Kind × Text)) (state : Mapping × Counters)
      → Keeps state.0 (add_each strip state calls).0
  unfolding add_each add_value
  add_each-Keeps [] state a m = m
  add_each-Keeps ((kind, value) ∷ calls) state a m =
      add_each-Keeps calls (enter (strip value) (some kind) state) a
        (enter-Keeps (strip value) (some kind) state a m)

  add_each-Known :
      (calls : List (Kind × Text)) (state : Mapping × Counters)
      → All (λ call. Known (add_each strip state calls).0 (strip call.1)) calls
  unfolding add_each add_value
  add_each-Known [] state = tt
  add_each-Known ((kind, value) ∷ calls) state =
      let next = enter (strip value) (some kind) state in
      (
        Keeps-Known next.0 (add_each strip next calls).0 (strip value) (add_each-Keeps calls next)
            (enter-Known (strip value) (some kind) state),
        add_each-Known calls next,
      )

module _ (strip : Text → Text) (hostname : Text → Option Text) where
  -- What a table becomes by the collection of a client's values.
  abbrev pub Collected : Client → Mapping → Mapping → Type 0
  Collected client old new =
      IsFaithful new
      × Named (strip client.company_name) new
      × Keeps old new
      × Known new (strip client.company_name)
      × All (λ call. Known new (strip call.1)) (later_values hostname client)

  -- Where no token of a table stands for two values, and that of the company for its present name
  -- alone, this holds again after the collection; every row stays as it is, and every identifying
  -- value of the client that is not blank has a row.
  pub collect_sensitive_values-Collected :
      (client : Client) (mapping : Mapping)
      → IsFaithful mapping
      → Named (strip client.company_name) mapping
      → Collected client mapping (collect_sensitive_values strip hostname client mapping)
  unfolding collect_sensitive_values counters_from_mapping add_value
  collect_sensitive_values-Collected client mapping h named =
      let name = strip client.company_name in
      let calls = later_values hostname client in
      let start : Mapping × Counters = (mapping, counters_from_mapping mapping) in
      let after = enter name none start in
      let last = (add_each strip after calls).0 in
      let counted = raise_each-Counted mapping (λ _. 0) in
      let sound : Sound after = enter-none-Sound name start named (h, counted) in
      (
        (add_each-Sound strip calls after sound).0,
        add_each-Named strip name calls after (enter-none-Named name start named),
        λ a m. add_each-Keeps strip calls after a (enter-Keeps name none start a m),
        Keeps-Known after.0 last name (add_each-Keeps strip calls after)
            (enter-Known name none start),
        add_each-Known strip calls after,
      )
