-- ===== src/Tests/Catalogue.antt =====
-- A catalogue of two offers, two clients, and the platform's settings.
use rssi_as_a_service.Prelude.{true, false, [], ◌∷◌, none, some}
use rssi_as_a_service.Billing.Features.{assistant, training, training_studio}
use rssi_as_a_service.Billing.Model.{
  Plan, published, Tenant, Subscription, trial, suspended, monthly, Db, Env,
}

abbrev pub veille : Plan
veille = record {
  id = 1;
  code = "veille";
  name = "Veille";
  tagline = "";
  description = "";
  price_monthly = 4900;
  price_yearly = 49000;
  currency = "EUR";
  is_quote_only = false;
  status = published;
  display_order = 1;
  is_highlighted = false;
  monitored_assets = 1;
  monthly_scans = 20;
  max_users = 3;
  watched_accounts = 0;
  monthly_watched_account_scans = 0;
  features = assistant ∷ [];
}

abbrev pub pilotage : Plan
pilotage = record veille {
  id = 2;
  code = "pilotage";
  name = "Pilotage";
  price_monthly = 14900;
  display_order = 2;
  monitored_assets = 5;
  max_users = 0;
  features = training_studio ∷ assistant ∷ training ∷ [];
}

abbrev pub acme : Tenant
acme = record { id = 7; name = "Acme" }

abbrev pub basil : Tenant
basil = record { id = 8; name = "Basil" }

-- Acme is on trial until 1000.
abbrev pub acme_trial : Subscription
acme_trial = record {
  id = 0;
  tenant = acme;
  plan = veille;
  status = trial;
  period = monthly;
  started_at = 0;
  trial_ends_at = some 1000;
  renews_at = none;
  ends_at = none;
  override_monitored_assets = none;
  override_monthly_scans = none;
  override_max_users = none;
  override_watched_accounts = none;
  override_monthly_watched_account_scans = none;
  override_features = none;
  internal_notes = "";
}

-- Basil is suspended, with four slots of its own.
abbrev pub basil_suspended : Subscription
basil_suspended = record acme_trial {
  id = 1;
  tenant = basil;
  plan = pilotage;
  status = suspended;
  trial_ends_at = none;
  override_monitored_assets = some 4;
}

abbrev pub office : Db
office = record {
  plans = veille ∷ pilotage ∷ [];
  subscriptions = acme_trial ∷ basil_suspended ∷ [];
  next_subscription = 2;
  next_plan = 3;
  events = [];
  payments = [];
  usages = [];
  monitored = record { tenant = 7; is_active = true } ∷ [];
  watched = [];
  memberships = record { tenant = 7; user = 1 } ∷ record { tenant = 7; user = 2 } ∷ [];
  alert_cache = [];
  alert_mails = [];
}

-- A pool of five slots; every mail leaves, and the cache takes every write.
abbrev pub settings : Env
settings = record {
  now = 2000;
  month = 202611;
  month_start = 0;
  monitored_slot_pool = 5;
  monthly_scan_cap = 1000;
  alert_warning_ratio = 80;
  alert_critical_ratio = 95;
  platform_alert_email = "ops@example.fr";
  default_trial_plan_code = "veille";
  trial_days = 14;
  mail_sent = λ _. true;
  cache_written = λ _. true;
}
