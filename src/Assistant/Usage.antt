-- ===== src/Assistant/Usage.antt =====
-- backend/apps/ai_assistant: the monthly quota of a client and the log of the calls. Costs are
-- millionths of a dollar; the name of a model is a datum.
use rssi_as_a_service.Prelude.{
  ℕ, ◌+◌, ◌-◌, ◌*◌, ◌≡◌, Bool, ◌&&◌, not, List, [], ◌∷◌, Option, none, some, ◌==◌, if◌then◌else◌,
  Result, ok, guard, ◌>>◌,
}

pub data UseCase : Type 0 where
  document_charter assistant_reply weather_enrichment exposure_synthesis : UseCase

pub data LanguageModel : Type 0 where
  sonnet haiku : LanguageModel

unfoldable pub model_of : UseCase → LanguageModel
model_of document_charter = sonnet
model_of assistant_reply = haiku
model_of weather_enrichment = haiku
model_of exposure_synthesis = haiku

-- The price of a million tokens, in and out, in dollars: of one token, in millionths.
unfoldable pub estimate_cost_usd : LanguageModel → ℕ → ℕ → ℕ
estimate_cost_usd haiku tokens_input tokens_output = tokens_input * 1 + tokens_output * 5
estimate_cost_usd sonnet tokens_input tokens_output = tokens_input * 3 + tokens_output * 15

-- `month` is the period of a moment: the first day of its month.
pub record UsageQuota : Type 0 where
  pub tenant : ℕ
  pub period : ℕ
  pub tokens_used : ℕ
  pub monthly_token_limit : ℕ

pub record UsageLog : Type 0 where
  pub tenant : ℕ
  pub use_case : UseCase
  pub month : ℕ
  pub tokens_input : ℕ
  pub tokens_output : ℕ
  pub cost : ℕ

pub record Usage : Type 0 where
  pub quotas : List UsageQuota
  pub logs : List UsageLog

pub data UsageError : Type 0 where
  ai_disabled quota_exceeded : UsageError

unfoldable pub remaining_tokens : UsageQuota → ℕ
remaining_tokens q = q.monthly_token_limit - q.tokens_used

abbrev pub is_of : ℕ → ℕ → UsageQuota → Bool
is_of tenant period q = q.tenant == tenant && q.period == period

unfoldable pub find_quota : ℕ → ℕ → List UsageQuota → Option UsageQuota
find_quota tenant period [] = none
find_quota tenant period (q ∷ rows) =
    let rest = find_quota tenant period rows in if is_of tenant period q then some q else rest

-- `get_or_create`
unfoldable pub get_or_create_current_quota : ℕ → ℕ → ℕ → Usage → UsageQuota × Usage
get_or_create_current_quota default_limit tenant period usage =
    elim (find_quota tenant period usage.quotas) [
      | some q ↦ (q, usage)
      | none ↦
          let q : UsageQuota = record {
            tenant = tenant;
            period = period;
            tokens_used = 0;
            monthly_token_limit = default_limit;
          } in
          (q, record usage { quotas = q ∷ usage.quotas })
    ]

unfoldable pub ensure_ai_enabled : Bool → Result UsageError (Unit {0})
ensure_ai_enabled ai_enabled = guard ai_enabled ai_disabled

unfoldable pub ensure_quota_available : ℕ → ℕ → ℕ → Usage → Result UsageError (UsageQuota × Usage)
ensure_quota_available default_limit tenant period usage = do
  let (quota, usage') = get_or_create_current_quota default_limit tenant period usage
  guard (not (remaining_tokens quota == 0)) quota_exceeded
  ok (quota, usage')

-- `.filter(id=quota.id).update(tokens_used=F("tokens_used") + …)`
unfoldable pub add_tokens : ℕ → ℕ → ℕ → List UsageQuota → List UsageQuota
add_tokens tenant period n [] = []
add_tokens tenant period n (q ∷ rows) =
    let rest = add_tokens tenant period n rows in
    if is_of tenant period q then record q { tokens_used = q.tokens_used + n } ∷ rows else q ∷ rest

unfoldable pub record_usage : ℕ → ℕ → ℕ → UseCase → ℕ → ℕ → Usage → Usage
record_usage default_limit tenant period use_case tokens_input tokens_output usage =
    let log : UsageLog = record {
      tenant = tenant;
      use_case = use_case;
      month = period;
      tokens_input = tokens_input;
      tokens_output = tokens_output;
      cost = estimate_cost_usd (model_of use_case) tokens_input tokens_output;
    } in
    let (_, usage') =
      get_or_create_current_quota default_limit tenant period
        (record usage { logs = log ∷ usage.logs }) in
    record usage' { quotas = add_tokens tenant period (tokens_input + tokens_output) usage'.quotas }

-- The tokens of the log of a client and a month.
unfoldable pub logged : ℕ → ℕ → List UsageLog → ℕ
logged tenant month [] = 0
logged tenant month (l ∷ rows) =
    let rest = logged tenant month rows in
    if l.tenant == tenant && l.month == month then l.tokens_input + l.tokens_output + rest else rest

abbrev pub used : Option UsageQuota → ℕ
used none = 0
used (some q) = q.tokens_used

-- The counter of every client and month is the sum of its log.
abbrev pub Agrees : Usage → Type 0
Agrees usage =
    (tenant month : ℕ)
    → used (find_quota tenant month usage.quotas) ≡ logged tenant month usage.logs

pub data Call : Type 0 where
  called : (tenant period : ℕ) → UseCase → (tokens_input tokens_output : ℕ) → Call
  asked : (tenant period : ℕ) → Call

-- A call that is logged, and a look at the quota, which may create it.
unfoldable pub play : ℕ → Call → Usage → Usage
play default_limit (called tenant period use_case i o) usage =
    record_usage default_limit tenant period use_case i o usage
play default_limit (asked tenant period) usage =
    (get_or_create_current_quota default_limit tenant period usage).1

unfoldable pub play_all : ℕ → List Call → Usage → Usage
play_all default_limit [] usage = usage
play_all default_limit (c ∷ calls) usage = play_all default_limit calls (play default_limit c usage)
