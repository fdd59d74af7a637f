-- ===== src/Assistant/Conversation.antt =====
-- backend/apps/ai_assistant/services.py: the table of a conversation, kept encrypted from one turn to the
-- next. The cipher and the serialisation are parameters.
use rssi_as_a_service.Prelude.{
  ℕ, ◌+◌, String, ◌≡◌, [], Option, none, some, ltb, Result, ok, err, guard, or_raise, ◌>>=◌, ◌>>◌,
  not,
}
use rssi_as_a_service.Assistant.Text.{Text}
use rssi_as_a_service.Assistant.Mapping.{Mapping, Client, collect_sensitive_values}

pub data AiError : Type 0 where
  key_missing mapping_expired mapping_unreadable : AiError

pub record MappingRow (C : Type 0) : Type 0 where
  pub encrypted_data : C
  pub expires_at : ℕ

-- The clock and the settings AI_PSEUDONYMIZATION_KEY and AI_PSEUDONYMIZATION_TTL_HOURS.
pub record Settings : Type 0 where
  pub now : ℕ
  pub key : Option String
  pub ttl : ℕ

-- `Fernet(key).encrypt(json.dumps(mapping))` and its inverse, which refuses what it did not make.
pub record Cipher : Type 1 where
  pub Token : Type 0
  pub encrypt : String → Mapping → Token
  pub decrypt : String → Token → Option Mapping

pub record CipherLaws (c : Cipher) : Type 0 where
  pub decrypt-encrypt :
      (key : String) (mapping : Mapping) → c.decrypt key (c.encrypt key mapping) ≡ some mapping

-- `except MappingExpiredError: mapping = {}`; the other error goes on.
unfoldable pub or_empty : Result AiError Mapping → Result AiError Mapping
or_empty (ok mapping) = ok mapping
or_empty (err mapping_expired) = ok []
or_empty (err mapping_unreadable) = ok []
or_empty (err key_missing) = err key_missing

module _ (c : Cipher) where
  unfoldable pub store_mapping : Settings → Mapping → Result AiError (MappingRow c.Token)
  store_mapping settings mapping = do
    key ← or_raise settings.key key_missing
    ok record { encrypted_data = c.encrypt key mapping; expires_at = settings.now + settings.ttl }

  unfoldable pub load_mapping : Settings → MappingRow c.Token → Result AiError Mapping
  load_mapping settings row = do
    guard (not (ltb row.expires_at settings.now)) mapping_expired
    key ← or_raise settings.key key_missing
    or_raise (c.decrypt key row.encrypted_data) mapping_unreadable

  unfoldable pub loaded : Settings → Option (MappingRow c.Token) → Result AiError Mapping
  loaded settings none = ok []
  loaded settings (some row) = or_empty (load_mapping settings row)

  module _ (strip : Text → Text) (hostname : Text → Option Text) where
    -- The table of this turn, and the row that the conversation points at after it: a new one, or the
    -- same one written over.
    unfoldable pub get_or_create_conversation_mapping :
        Client
        → Settings
        → Option (MappingRow c.Token)
        → Result AiError (Mapping × MappingRow c.Token)
    get_or_create_conversation_mapping client settings row = do
      mapping ← loaded settings row
      let extended = collect_sensitive_values strip hostname client mapping
      stored ← store_mapping settings extended
      ok (extended, stored)
