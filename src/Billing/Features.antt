-- ===== src/Billing/Features.antt =====
-- backend/apps/billing/features.py: the registry of features, with what each one needs.
-- A feature is kept as its key; labels and teasers are texts for display.
pub mod Laws
use rssi_as_a_service.Prelude.{String, Bool, List, [], ◌∷◌, keep, contains, str_eq, if◌then◌else◌}

abbrev pub assistant : String
assistant = "assistant"

abbrev pub exposure_synthesis : String
exposure_synthesis = "exposure_synthesis"

abbrev pub pdf_export : String
pdf_export = "pdf_export"

abbrev pub reuse_correlation : String
reuse_correlation = "reuse_correlation"

abbrev pub secret_reveal : String
secret_reveal = "secret_reveal"

abbrev pub anssi_assessment : String
anssi_assessment = "anssi_assessment"

abbrev pub charter_generation : String
charter_generation = "charter_generation"

abbrev pub realtime_monitoring : String
realtime_monitoring = "realtime_monitoring"

abbrev pub watched_accounts : String
watched_accounts = "watched_accounts"

abbrev pub training : String
training = "training"

abbrev pub training_studio : String
training_studio = "training_studio"

-- The keys of `REGISTRY`, in its order.
unfoldable pub registry : List String
registry =
    assistant ∷ exposure_synthesis ∷ pdf_export ∷ reuse_correlation ∷ secret_reveal
    ∷ anssi_assessment ∷ charter_generation ∷ watched_accounts ∷ realtime_monitoring ∷ training
    ∷ training_studio ∷ []

-- `DEPEND_DE.get(key, ())`
unfoldable pub depend_de : String → List String
depend_de key = if str_eq key training_studio then training ∷ [] else []

-- The quota attribute that a feature needs.
pub data QuotaAttribute : Type 0 where
  watched_accounts_quota monitored_assets_quota : QuotaAttribute

-- What makes a composition incoherent: a feature that another one needs is left out, or a feature is
-- kept whose quota is 0.
pub data Problem : Type 0 where
  missing_feature : (key needed : String) → Problem
  missing_quota : (key : String) (quota : QuotaAttribute) → Problem

-- `QUOTA_REQUIS`, in its order.
unfoldable pub quota_requis : List (String × QuotaAttribute)
quota_requis =
    (watched_accounts, watched_accounts_quota) ∷ (realtime_monitoring, monitored_assets_quota) ∷ []

unfoldable pub is_known : String → Bool
unfolding registry
is_known key = contains registry key

-- `sanitize`: the known keys among those provided, in the registry's order.
unfoldable pub sanitize : List String → List String
sanitize keys = keep (contains keys) registry
