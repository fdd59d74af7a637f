-- ===== src/Assistant/Mapping.antt =====
-- backend/apps/ai_assistant/services.py, the table that gives each identifying value its token, in the
-- order of insertion of the dictionary. `str.strip` and `urlparse(…).hostname` are parameters.
use rssi_as_a_service.Prelude.{
  ℕ, suc, Bool, true, false, List, [], ◌∷◌, ◌++◌, map, Option, none, some, if◌then◌else◌, leb,
  some_of,
}
use rssi_as_a_service.Assistant.Text.{Text, text_eq}
use rssi_as_a_service.Assistant.Placeholder.{
  Kind, member, email, url, domain, Placeholder, company, numbered, render,
}
use rssi_as_a_service.Assistant.Substitution.{Table, alternatives, substitute}

abbrev pub Mapping : Type 0
Mapping = List (Text × Placeholder)

abbrev pub Counters : Type 0
Counters = Kind → ℕ

unfoldable pub same_kind : Kind → Kind → Bool
same_kind member member = true
same_kind email email = true
same_kind url url = true
same_kind domain domain = true
same_kind _ _ = false

-- `value in mapping`
unfoldable pub is_mapped : Text → Mapping → Bool
is_mapped value mapping = some_of (λ (row : Text × Placeholder). text_eq row.0 value) mapping

-- `counters[kind] += 1`
unfoldable pub bump : Kind → Counters → Counters
bump kind counters other = if same_kind other kind then suc (counters kind) else counters other

-- `counters[kind] = max(counters[kind], index)`, for a token that bears an index.
unfoldable pub raise_to : Placeholder → Counters → Counters
raise_to company counters other = counters other
raise_to (numbered kind index) counters other =
    if same_kind other kind
    then (if leb (counters kind) index then index else counters kind)
    else counters other

unfoldable pub raise_each : Mapping → Counters → Counters
raise_each [] counters = counters
raise_each (row ∷ rows) counters = raise_each rows (raise_to row.1 counters)

unfoldable pub counters_from_mapping : Mapping → Counters
counters_from_mapping mapping = raise_each mapping (λ _. 0)

-- What `collect_sensitive_values` reads of a client: its name, its members, its assets, and the
-- addresses of `context_findings`.
pub record Person : Type 0 where
  pub full_name : Text
  pub address : Text

pub data AssetType : Type 0 where
  website email_domain : AssetType

pub record Asset : Type 0 where
  pub type_of : AssetType
  pub value : Text

pub record Client : Type 0 where
  pub company_name : Text
  pub members : List Person
  pub assets : List Asset
  pub findings : List Text

-- The kind is `none` for « COMPANY ».
unfoldable pub new_row : Text → Option Kind → Counters → Text × Placeholder
new_row value none counters = (value, company)
new_row value (some kind) counters = (value, numbered kind (suc (counters kind)))

unfoldable pub bumped : Option Kind → Counters → Counters
bumped none counters = counters
bumped (some kind) counters = bump kind counters

unfoldable pub enter : Text → Option Kind → Mapping × Counters → Mapping × Counters
enter [] kind state = state
enter (c ∷ v) kind (mapping, counters) =
    if is_mapped (c ∷ v) mapping
    then (mapping, counters)
    else (mapping ++ (new_row (c ∷ v) kind counters ∷ []), bumped kind counters)

-- The calls of `_add_value`, loop by loop.
unfoldable pub member_values : List Person → List (Kind × Text)
member_values [] = []
member_values (m ∷ ms) = (member, m.full_name) ∷ (email, m.address) ∷ member_values ms

unfoldable pub hostname_values : Option Text → List (Kind × Text)
hostname_values none = []
hostname_values (some []) = []
hostname_values (some (c ∷ host)) = (domain, c ∷ host) ∷ []

unfoldable pub finding_values : List Text → List (Kind × Text)
finding_values [] = []
finding_values ([] ∷ rest) = finding_values rest
finding_values ((c ∷ v) ∷ rest) = (email, c ∷ v) ∷ finding_values rest

module _ (strip : Text → Text) where
  unfoldable pub add_value : Mapping × Counters → Option Kind → Text → Mapping × Counters
  add_value state kind value = enter (strip value) kind state

  unfoldable pub add_each : Mapping × Counters → List (Kind × Text) → Mapping × Counters
  add_each state [] = state
  add_each state ((kind, value) ∷ calls) = add_each (add_value state (some kind) value) calls

module _ (hostname : Text → Option Text) where
  unfoldable pub values_of_asset : AssetType → Text → List (Kind × Text)
  values_of_asset website value = (url, value) ∷ hostname_values (hostname value)
  values_of_asset email_domain value = (domain, value) ∷ []

  unfoldable pub asset_values : List Asset → List (Kind × Text)
  asset_values [] = []
  asset_values (a ∷ rest) = values_of_asset a.type_of a.value ++ asset_values rest

  -- Those that follow the company's.
  unfoldable pub later_values : Client → List (Kind × Text)
  later_values client =
      member_values client.members ++ (asset_values client.assets ++ finding_values client.findings)

module _ (strip : Text → Text) (hostname : Text → Option Text) where
  unfoldable pub collect_sensitive_values : Client → Mapping → Mapping
  collect_sensitive_values client mapping =
      (add_each strip
        (add_value strip (mapping, counters_from_mapping mapping) none client.company_name)
        (later_values hostname client)).0

-- `lambda m: mapping[m.group(0)]`: each value with the text of its token.
unfoldable pub tokens : Mapping → Table
tokens mapping = map (λ (row : Text × Placeholder). (row.0, render row.1)) mapping

-- `pattern.sub` over the keys of a table; an empty table has no pattern and leaves the text.
unfoldable pub replace_all : Table → Text → Text
replace_all [] text = text
replace_all (row ∷ rows) text = substitute (alternatives (row ∷ rows)) 0 text

unfoldable pub pseudonymize_text : Text → Mapping → Text
pseudonymize_text [] mapping = []
pseudonymize_text (c ∷ s) mapping = replace_all (tokens mapping) (c ∷ s)

-- `reverse[placeholder] = real`, which replaces the value of a key that stands.
unfoldable pub put : Text → Text → Table → Table
put key real [] = (key, real) ∷ []
put key real (row ∷ rows) =
    let rest = put key real rows in if text_eq row.0 key then (key, real) ∷ rows else row ∷ rest

unfoldable pub put_each : Mapping → Table → Table
put_each [] rows = rows
put_each (row ∷ mapping) rows = put_each mapping (put (render row.1) row.0 rows)

unfoldable pub reverse : Mapping → Table
reverse mapping = put_each mapping []

unfoldable pub rehydrate_text : Text → Mapping → Text
rehydrate_text [] mapping = []
rehydrate_text (c ∷ s) mapping = replace_all (reverse mapping) (c ∷ s)
