-- ===== src/Tests/Assistant.antt =====
-- Concrete runs of the pseudonymisation.
use rssi_as_a_service.Prelude.{
  String, ◌≡◌, refl, sym, subst, eq_iff, ◌++◌, false, List, [], ◌∷◌, Option, none, some, inr,
  str_eq, if◌then◌else◌, arith, Memᴰ, All, All-mem, ok, ◌==◌, sort_by, insert_by, some_of,
}
use rssi_as_a_service.Assistant.Text.{Text, starts_with, occurs, text_eq, str, IsFree}
use rssi_as_a_service.Assistant.Placeholder.{
  Placeholder, member, email, url, domain, company, numbered, word, body, render, opening,
}
use rssi_as_a_service.Assistant.Substitution.{alternatives, find_match, substitute}
use rssi_as_a_service.Assistant.Mapping.{
  Mapping, Client, website, same_kind, is_mapped, bump, raise_each, counters_from_mapping, new_row,
  bumped, enter, add_value, add_each, member_values, hostname_values, finding_values,
  values_of_asset, asset_values, later_values, collect_sensitive_values, tokens, replace_all,
  pseudonymize_text, put, put_each, reverse, rehydrate_text,
}
use rssi_as_a_service.Assistant.Faithful.{IsFaithful, Named}
use rssi_as_a_service.Assistant.Collection.{Collected, collect_sensitive_values-Collected}
use rssi_as_a_service.Assistant.Rehydration.{rehydrate_text-pseudonymize_text}
use rssi_as_a_service.Assistant.Payload.{
  Value, string, other, list, item, no_items, dict, field, no_fields, preview, Hides, KeysFree,
  preview-Hides,
}
use rssi_as_a_service.Assistant.Conversation.{Settings, MappingRow, Cipher, CipherLaws}
use rssi_as_a_service.Assistant.Turns.{
  Turned, RowSound, Holds, get_or_create_conversation_mapping-Turned, talk, talk-Returns, Returns,
}

-- « Acme », « Ann Lee », « ann@acme.fr », « https://acme.fr », « acme.fr », « ex@a.fr »
abbrev acme : Text
acme = b'A' ∷ b'c' ∷ b'm' ∷ b'e' ∷ []

abbrev ann : Text
ann = b'A' ∷ b'n' ∷ b'n' ∷ b' ' ∷ b'L' ∷ b'e' ∷ b'e' ∷ []

abbrev ann_address : Text
ann_address = b'a' ∷ b'n' ∷ b'n' ∷ b'@' ∷ b'a' ∷ b'.' ∷ b'f' ∷ b'r' ∷ []

abbrev site : Text
site = b'h' ∷ b't' ∷ b't' ∷ b'p' ∷ b':' ∷ b'/' ∷ b'/' ∷ b'a' ∷ b'.' ∷ b'f' ∷ b'r' ∷ []

abbrev host : Text
host = b'a' ∷ b'.' ∷ b'f' ∷ b'r' ∷ []

abbrev former : Text
former = b'x' ∷ b'@' ∷ b'a' ∷ b'.' ∷ b'f' ∷ b'r' ∷ []

-- Leading spaces go.
strip_spaces : Text → Text
strip_spaces [] = []
strip_spaces (c ∷ s) = let rest = strip_spaces s in if c == b' ' then rest else c ∷ s

abbrev host_of : Text → Option Text
host_of _ = some host

abbrev client : Client
client = record {
  company_name = b' ' ∷ acme;
  members = record { full_name = ann; address = ann_address } ∷ [];
  assets = record { type_of = website; value = site } ∷ [];
  findings = former ∷ [] ∷ [];
}

abbrev table : Mapping
table =
    (acme, company)
    ∷ (ann, numbered member 1)
    ∷ (ann_address, numbered email 1)
    ∷ (site, numbered url 1)
    ∷ (host, numbered domain 1)
    ∷ (former, numbered email 2)
    ∷ []

collects : collect_sensitive_values strip_spaces host_of client [] ≡ table
unfolding strip_spaces collect_sensitive_values counters_from_mapping raise_each add_value enter
    is_mapped some_of text_eq new_row bumped bump same_kind add_each later_values member_values
    asset_values values_of_asset hostname_values finding_values
collects = refl

-- « Acme: Ann Lee »
abbrev note : Text
note = b'A' ∷ b'c' ∷ b'm' ∷ b'e' ∷ b':' ∷ b' ' ∷ ann

-- « {{COMPANY}}: {{MEMBER_1}} »
pseudonymizes :
    pseudonymize_text note table ≡ render company ++ (b':' ∷ b' ' ∷ render (numbered member 1))
unfolding pseudonymize_text replace_all tokens alternatives sort_by insert_by substitute find_match
    starts_with render body word str
pseudonymizes = refl

-- After « Acme » became « Bolt » in the middle of a conversation, both stand for one token, and what was
-- said of the first comes back as said of the second.
abbrev bolt : Text
bolt = b'B' ∷ b'o' ∷ b'l' ∷ b't' ∷ []

renamed :
    rehydrate_text
      (pseudonymize_text acme ((acme, company) ∷ (bolt, company) ∷ []))
      ((acme, company) ∷ (bolt, company) ∷ [])
    ≡ bolt
unfolding pseudonymize_text rehydrate_text reverse put_each put replace_all tokens alternatives
    sort_by insert_by substitute find_match starts_with render body word text_eq
renamed = refl

renames :
    collect_sensitive_values strip_spaces host_of
      (record { company_name = bolt; members = []; assets = []; findings = [] })
      ((acme, company) ∷ [])
    ≡ (acme, company) ∷ (bolt, company) ∷ []
unfolding strip_spaces collect_sensitive_values counters_from_mapping raise_each add_value enter
    is_mapped some_of text_eq new_row bumped add_each later_values member_values asset_values
    finding_values
renames = refl

empty-IsFaithful : IsFaithful []
empty-IsFaithful = record { filled = λ a m. elim m [ ]; unshared = λ a b m k e. elim m [ ] }

collect_sensitive_values-Collected_example :
    Collected strip_spaces host_of client []
      (collect_sensitive_values strip_spaces host_of client [])
collect_sensitive_values-Collected_example =
    collect_sensitive_values-Collected strip_spaces host_of client [] empty-IsFaithful
      (λ value m. elim m [ ])

table-IsFaithful : IsFaithful table
table-IsFaithful =
    subst IsFaithful collects
      (collect_sensitive_values-Collected strip_spaces host_of client [] empty-IsFaithful
        (λ value m. elim m [ ])).0

note-IsFree : IsFree opening note
note-IsFree = omega arith

rehydrate_text-pseudonymize_text_example :
    rehydrate_text (pseudonymize_text note table) table ≡ note
rehydrate_text-pseudonymize_text_example =
    rehydrate_text-pseudonymize_text table note table-IsFaithful note-IsFree

former-apart : All (λ (b : Text × Placeholder). occurs former (body b.1) ≡ false) table
unfolding occurs starts_with body word str
former-apart = (refl, (refl, (refl, (refl, (refl, (refl, tt))))))

-- « actif », a key of the contexts
abbrev key_word : Text
key_word = b'a' ∷ b'c' ∷ b't' ∷ b'i' ∷ b'f' ∷ []

abbrev context : Value
context = dict (field key_word (list (item (string former) (item (other 3) no_items))) no_fields)

former_identifies : Memᴰ (email, former) (later_values host_of client)
unfolding later_values member_values asset_values values_of_asset hostname_values finding_values
former_identifies = Memᴰ.tail (Memᴰ.tail (Memᴰ.tail (Memᴰ.tail (Memᴰ.head refl))))

former_stripped : strip_spaces former ≡ former
unfolding strip_spaces
former_stripped = refl

former_no_key : KeysFree former context
unfolding KeysFree occurs starts_with
former_no_key = (refl, (tt, (tt, tt)), tt)

preview-Hides_example : Hides (strip_spaces former) (preview strip_spaces host_of client context)
preview-Hides_example =
    preview-Hides strip_spaces host_of client context former (inr (email, former_identifies))
      (λ e. cc (former_stripped, e)) (subst (IsFree opening) (sym former_stripped) (omega arith))
      (subst (IsFree b'}') (sym former_stripped) (omega arith))
      (λ b m.
        subst (λ t. occurs t (body b.1) ≡ false) (sym former_stripped)
          (All-mem (λ (r : Text × Placeholder). occurs former (body r.1) ≡ false) table former-apart
            (subst (λ rows. Memᴰ b rows) collects m)))
      (subst (λ t. KeysFree t context) (sym former_stripped) former_no_key)

-- A cipher that puts the key beside the table.
abbrev box : Cipher
box = record {
  Token = String × Mapping;
  encrypt = λ key mapping. (key, mapping);
  decrypt = λ key token. if str_eq token.0 key then some token.1 else none;
}

box-laws : CipherLaws box
box-laws = record { decrypt-encrypt = λ key mapping. ground (arith, eq_iff key key) }

abbrev settings : Settings
settings = record { now = 100; key = some "k"; ttl = 24 }

abbrev later : Settings
later = record settings { now = 110 }

-- The row that the first turn left, and which the second reads while it is valid.
abbrev first_row : MappingRow (String × Mapping)
first_row = record { encrypted_data = ("k", table); expires_at = 124 }

first_row_holds : Holds box later "k" (some first_row) table
first_row_holds = (omega arith, refl)

-- « Eve Roy », who joined between the turns
abbrev eve : Text
eve = b'E' ∷ b'v' ∷ b'e' ∷ b' ' ∷ b'R' ∷ b'o' ∷ b'y' ∷ []

abbrev grown : Client
grown = record client {
  members = record { full_name = eve; address = ann_address } ∷ client.members;
}

table-Named : Named (strip_spaces (b' ' ∷ acme)) table
table-Named =
    subst (Named (strip_spaces (b' ' ∷ acme))) collects
      (collect_sensitive_values-Collected strip_spaces host_of client [] empty-IsFaithful
        (λ value m. elim m [ ])).1

first_row-RowSound : RowSound box "k" (strip_spaces (b' ' ∷ acme)) (some first_row)
first_row-RowSound mapping read =
    let same : table ≡ mapping = ground (arith, read) in
    subst (λ t. IsFaithful t × Named (strip_spaces (b' ' ∷ acme)) t) same
      (table-IsFaithful, table-Named)

get_or_create_conversation_mapping-Turned_example :
    Turned box box-laws strip_spaces host_of grown later "k" (some first_row)
get_or_create_conversation_mapping-Turned_example =
    get_or_create_conversation_mapping-Turned box box-laws strip_spaces host_of grown later "k"
      (some first_row) refl first_row-RowSound

talk-Returns_example :
    (tables : List Mapping) × (talk box box-laws strip_spaces host_of
        ((client, settings) ∷ (client, later) ∷ [])
        none
      ≡ ok tables)
    × All Returns tables
talk-Returns_example =
    talk-Returns box box-laws strip_spaces host_of "k" (strip_spaces (b' ' ∷ acme))
      ((client, settings) ∷ (client, later) ∷ []) none ((refl, refl), ((refl, refl), tt)) tt
