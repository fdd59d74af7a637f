-- ===== src/Assistant/Payload.antt =====
-- backend/apps/ai_assistant/services.py: the payloads that leave for the model. The dictionary that a
-- use case gathers is an argument.
use rssi_as_a_service.Prelude.{
  ℕ, ◌≡◌, ◌≢◌, sym, subst, false, [], ◌⊎◌, inl, inr, Memᴰ, All-mem, Option,
}
use rssi_as_a_service.Assistant.Text.{Text, IsFree, occurs}
use rssi_as_a_service.Assistant.Placeholder.{Kind, Placeholder, opening, closing, body}
use rssi_as_a_service.Assistant.Mapping.{
  Mapping, Client, later_values, pseudonymize_text, collect_sensitive_values,
}
use rssi_as_a_service.Assistant.Faithful.{IsFaithful}
use rssi_as_a_service.Assistant.Collection.{Known, collect_sensitive_values-Collected}
use rssi_as_a_service.Assistant.Hiding.{IsHideable, pseudonymize_text-hides}

-- A string, a dictionary, a list, or any other value, which stays as it is.
mutual
  pub data Value : Type 0 where
    string : Text → Value
    dict : Fields → Value
    list : Items → Value
    other : ℕ → Value

  pub data Fields : Type 0 where
    no_fields : Fields
    field : Text → Value → Fields → Fields

  pub data Items : Type 0 where
    no_items : Items
    item : Value → Items → Items

unfoldable mutual
  pub pseudonymize_value : Value → Mapping → Value
  pseudonymize_value (string text) mapping = string (pseudonymize_text text mapping)
  pseudonymize_value (dict fields) mapping = dict (pseudonymize_fields fields mapping)
  pseudonymize_value (list items) mapping = list (pseudonymize_items items mapping)
  pseudonymize_value (other n) mapping = other n

  pub pseudonymize_fields : Fields → Mapping → Fields
  pseudonymize_fields no_fields mapping = no_fields
  pseudonymize_fields (field key v rest) mapping =
      field key (pseudonymize_value v mapping) (pseudonymize_fields rest mapping)

  pub pseudonymize_items : Items → Mapping → Items
  pseudonymize_items no_items mapping = no_items
  pseudonymize_items (item v rest) mapping =
      item (pseudonymize_value v mapping) (pseudonymize_items rest mapping)

-- A text stands in no string of a value, the keys of its dictionaries included.
unfoldable mutual
  pub Hides : Text → Value → Type 0
  Hides text (string s) = occurs text s ≡ false
  Hides text (dict fields) = HidesFields text fields
  Hides text (list items) = HidesItems text items
  Hides text (other n) = Unit

  pub HidesFields : Text → Fields → Type 0
  HidesFields text no_fields = Unit
  HidesFields text (field key v rest) =
      (occurs text key ≡ false) × Hides text v × HidesFields text rest

  pub HidesItems : Text → Items → Type 0
  HidesItems text no_items = Unit
  HidesItems text (item v rest) = Hides text v × HidesItems text rest

-- A text stands in no key of the dictionaries of a value. The keys are words of the code.
unfoldable mutual
  pub KeysFree : Text → Value → Type 0
  KeysFree text (string s) = Unit
  KeysFree text (dict fields) = FieldsFree text fields
  KeysFree text (list items) = ItemsFree text items
  KeysFree text (other n) = Unit

  pub FieldsFree : Text → Fields → Type 0
  FieldsFree text no_fields = Unit
  FieldsFree text (field key v rest) =
      (occurs text key ≡ false) × KeysFree text v × FieldsFree text rest

  pub ItemsFree : Text → Items → Type 0
  ItemsFree text no_items = Unit
  ItemsFree text (item v rest) = KeysFree text v × ItemsFree text rest

mutual
  unfolding pseudonymize_value Hides KeysFree

  value-Hides :
      (text : Text) (mapping : Mapping) (v : Value)
      → IsHideable text mapping
      → KeysFree text v
      → Hides text (pseudonymize_value v mapping)
  value-Hides text mapping (string s) h k = pseudonymize_text-hides text mapping s h
  value-Hides text mapping (dict fields) h k = fields-Hides text mapping fields h k
  value-Hides text mapping (list items) h k = items-Hides text mapping items h k
  value-Hides text mapping (other n) h k = tt

  fields-Hides :
      (text : Text) (mapping : Mapping) (fields : Fields)
      → IsHideable text mapping
      → FieldsFree text fields
      → HidesFields text (pseudonymize_fields fields mapping)
  fields-Hides text mapping no_fields h k = tt
  fields-Hides text mapping (field key v rest) h k =
      (k.0, value-Hides text mapping v h k.1, fields-Hides text mapping rest h k.2)

  items-Hides :
      (text : Text) (mapping : Mapping) (items : Items)
      → IsHideable text mapping
      → ItemsFree text items
      → HidesItems text (pseudonymize_items items mapping)
  items-Hides text mapping no_items h k = tt
  items-Hides text mapping (item v rest) h k =
      (value-Hides text mapping v h k.0, items-Hides text mapping rest h k.1)

module _ (strip : Text → Text) (hostname : Text → Option Text) where
  -- `preview_…_context`: what would be sent.
  unfoldable pub preview : Client → Value → Value
  preview client context =
      pseudonymize_value context (collect_sensitive_values strip hostname client [])

  -- The texts that identify a client: its name, and those of its people, assets and leaks.
  abbrev pub Identifies : Client → Text → Type 0
  Identifies client text =
      (text ≡ client.company_name)
      ⊎ ((kind : Kind) × Memᴰ (kind, text) (later_values hostname client))

  known :
      (client : Client) (text : Text)
      → Identifies client text
      → Known (collect_sensitive_values strip hostname client []) (strip text)
  known client text which =
      let empty : IsFaithful [] = record {
        filled = λ a m. elim m [ ];
        unshared = λ a b m k e. elim m [ ];
      } in
      let (_, _, _, name, others) =
        collect_sensitive_values-Collected strip hostname client [] empty (λ value m. elim m [ ]) in
      elim which [
        | inl e ↦
            subst (λ t. Known (collect_sensitive_values strip hostname client []) (strip t)) (sym e)
              name
        | inr (kind, m) ↦
            All-mem
              (λ (call : Kind × Text).
                Known (collect_sensitive_values strip hostname client []) (strip call.1))
              (later_values hostname client) others m
      ]

  -- A text that identifies the client, stripped, stands in no string of what would be sent, neither in
  -- a value nor in a key, whatever the values of the context are, when it is not blank, bears no brace,
  -- and stands in no token's name and in none of the context's keys, which are sent unchanged.
  pub preview-Hides :
      (client : Client) (context : Value) (text : Text)
      → Identifies client text
      → strip text ≢ []
      → IsFree opening (strip text)
      → IsFree closing (strip text)
      → ((b : Text × Placeholder)
          → Memᴰ b (collect_sensitive_values strip hostname client [])
          → occurs (strip text) (body b.1) ≡ false)
      → KeysFree (strip text) context
      → Hides (strip text) (preview client context)
  unfolding preview
  preview-Hides client context text which filled no_opening no_closing apart keys =
      let mapping = collect_sensitive_values strip hostname client [] in
      elim (known client text which) [
        | inl blank ↦ absurd (filled blank)
        | inr (p, m) ↦
            value-Hides (strip text) mapping context
              record {
                token = p;
                stands = m;
                filled = filled;
                no_opening = no_opening;
                no_closing = no_closing;
                apart = apart;
              }
              keys
      ]
