-- ===== src/Assistant/Turns.antt =====
-- backend/apps/ai_assistant/services.py: over the turns of a conversation, the table keeps its tokens and
-- gives none to two values.
use rssi_as_a_service.Prelude.{
  ◌+◌, ◌≤◌, String, ◌≡◌, refl, sym, subst, List, [], ◌∷◌, Option, none, some, inl, inr, ltb, arith,
  Bool-cases, Option-cases, All, Result, ok, ◌>>=◌,
}
use rssi_as_a_service.Assistant.Text.{Text, IsFree}
use rssi_as_a_service.Assistant.Placeholder.{opening}
use rssi_as_a_service.Assistant.Mapping.{
  Mapping, Client, collect_sensitive_values, pseudonymize_text, rehydrate_text,
}
use rssi_as_a_service.Assistant.Faithful.{IsFaithful, Named}
use rssi_as_a_service.Assistant.Collection.{Keeps, collect_sensitive_values-Collected}
use rssi_as_a_service.Assistant.Rehydration.{rehydrate_text-pseudonymize_text}
use rssi_as_a_service.Assistant.Conversation.{
  AiError, MappingRow, Settings, Cipher, CipherLaws, store_mapping, load_mapping, or_empty, loaded,
  get_or_create_conversation_mapping,
}

empty-IsFaithful : IsFaithful []
empty-IsFaithful = record { filled = λ a m. elim m [ ]; unshared = λ a b m k e. elim m [ ] }

-- A text without `{` comes back as it left.
abbrev pub Returns : Mapping → Type 0
Returns mapping =
    (text : Text)
    → IsFree opening text
    → rehydrate_text (pseudonymize_text text mapping) mapping ≡ text

module _ (c : Cipher) where
  -- What a row holds gives no token to two values, and the company's to this name.
  abbrev pub RowSound : String → Text → Option (MappingRow c.Token) → Type 0
  RowSound key name none = Unit
  RowSound key name (some row) =
      (mapping : Mapping)
      → c.decrypt key row.encrypted_data ≡ some mapping
      → IsFaithful mapping × Named name mapping

  -- What a row holds for a turn: its table, if it is still valid and can be read.
  abbrev pub Holds : Settings → String → Option (MappingRow c.Token) → Mapping → Type 0
  Holds settings key none mapping = ⊥
  Holds settings key (some row) mapping =
      (settings.now ≤ row.expires_at) × (c.decrypt key row.encrypted_data ≡ some mapping)

  abbrev Reads : Settings → String → Text → Option (MappingRow c.Token) → Type 0
  Reads settings key name row =
      (mapping : Mapping) × (loaded c settings row ≡ ok mapping)
      × IsFaithful mapping
      × Named name mapping
      × ((held : Mapping) → Holds settings key row held → held ≡ mapping)

  loaded-Reads :
      (settings : Settings) (key : String) (name : Text) (row : Option (MappingRow c.Token))
      → settings.key ≡ some key
      → RowSound key name row
      → Reads settings key name row
  unfolding loaded or_empty load_mapping
  loaded-Reads settings key name none set sound =
      ([], refl, empty-IsFaithful, (λ value m. elim m [ ]), (λ held h. absurd h))
  loaded-Reads settings key name (some row) set sound =
      elim (Bool-cases (ltb row.expires_at settings.now)) [
        | inl past ↦ (
          [],
          rw past refl,
          empty-IsFaithful,
          (λ value m. elim m [ ]),
          (λ held h. absurd (ground (arith, h.0, past))),
        )
        | inr live ↦ elim (Option-cases (c.decrypt key row.encrypted_data)) [
          | inl unread ↦ (
            [],
            rw (live, set, unread) refl,
            empty-IsFaithful,
            (λ value m. elim m [ ]),
            (λ held h. cc (h.1, unread)),
          )
          | inr (mapping, read) ↦
              let (faithful, named) = sound mapping read in
              (mapping, rw (live, set, read) refl, faithful, named, (λ held h. cc (h.1, read)))
        ]
      ]

module _ (c : Cipher) (laws : CipherLaws c) (strip : Text → Text)
    (hostname : Text → Option Text) where
  -- What a turn leaves: its table, which gives no token to two values, and the row that holds it until
  -- the validity ends; a table that the row held before keeps all its tokens.
  abbrev pub Turned : Client → Settings → String → Option (MappingRow c.Token) → Type 0
  Turned client settings key row =
      (mapping : Mapping) × (stored : MappingRow c.Token) × (get_or_create_conversation_mapping c
          strip hostname client settings row
        ≡ ok (mapping, stored))
      × IsFaithful mapping
      × Named (strip client.company_name) mapping
      × (c.decrypt key stored.encrypted_data ≡ some mapping)
      × (stored.expires_at ≡ settings.now + settings.ttl)
      × ((held : Mapping) → Holds c settings key row held → Keeps held mapping)

  -- With a key, and where the row, if there is one that can be read, holds a table that gives no token
  -- to two values and the company's to its present name alone, a turn gives a table: it is such a one,
  -- is stored for the time of its validity, and keeps every token of the old one if that is still valid.
  pub get_or_create_conversation_mapping-Turned :
      (client : Client) (settings : Settings) (key : String) (row : Option (MappingRow c.Token))
      → settings.key ≡ some key
      → RowSound c key (strip client.company_name) row
      → Turned client settings key row
  unfolding get_or_create_conversation_mapping store_mapping
  get_or_create_conversation_mapping-Turned client settings key row set sound =
      let name = strip client.company_name in
      let (old, read, faithful, named, held) = loaded-Reads c settings key name row set sound in
      let mapping = collect_sensitive_values strip hostname client old in
      let stored : MappingRow c.Token = record {
        encrypted_data = c.encrypt key mapping;
        expires_at = settings.now + settings.ttl;
      } in
      let (faithful', named', keeps, _, _) =
        collect_sensitive_values-Collected strip hostname client old faithful named in
      (
        mapping,
        stored,
        rw (read, set) refl,
        faithful',
        named',
        laws.decrypt-encrypt key mapping,
        refl,
        (λ before h. subst (λ m. Keeps m mapping) (sym (held before h)) keeps),
      )

  -- The tables of a run of turns, each with the client and the settings of its moment.
  unfoldable pub talk :
      List (Client × Settings) → Option (MappingRow c.Token) → Result AiError (List Mapping)
  talk [] row = ok []
  talk ((client, settings) ∷ turns) row = do
    (mapping, stored) ← get_or_create_conversation_mapping c strip hostname client settings row
    rest ← talk turns (some stored)
    ok (mapping ∷ rest)

  abbrev pub SameHouse : String → Text → Client × Settings → Type 0
  SameHouse key name (client, settings) =
      (settings.key ≡ some key) × (strip client.company_name ≡ name)

  -- In a conversation during which the key and the company's name stay, every turn gives a table,
  -- through which a text without `{` comes back as it left.
  pub talk-Returns :
      (key : String) (name : Text) (turns : List (Client × Settings))
      (row : Option (MappingRow c.Token))
      → All (SameHouse key name) turns
      → RowSound c key name row
      → (tables : List Mapping) × (talk turns row ≡ ok tables) × All Returns tables
  unfolding talk
  talk-Returns key name [] row same sound = ([], refl, tt)
  talk-Returns key name ((client, settings) ∷ turns) row same sound =
      let named_here : RowSound c key (strip client.company_name) row =
        subst (λ n. RowSound c key n row) (sym same.0.1) sound in
      let (mapping, stored, e, faithful, named, kept, _, _) =
        get_or_create_conversation_mapping-Turned client settings key row same.0.0 named_here in
      let sound' : RowSound c key name (some stored) = (λ m read.
        let agree : mapping ≡ m = cc (kept, read) in
        subst (λ x. IsFaithful x × Named name x) agree
          (faithful, subst (λ n. Named n mapping) same.0.1 named)) in
      let (tables, e', returns) = talk-Returns key name turns (some stored) same.1 sound' in
      (
        mapping ∷ tables,
        rw (e, e') refl,
        ((λ text free. rehydrate_text-pseudonymize_text mapping text faithful free), returns),
      )
