-- ===== src/Billing.antt =====
-- The commercial core, backend/apps/billing: offers, subscriptions, the platform's capacity, and
-- the rights that a client's subscription gives.
pub mod Features
pub mod Model
pub mod Capacity
pub mod Lifecycle
pub mod Rows
pub mod Negotiation
pub mod Catalogue
pub mod TrialMigration
pub mod Commitment
pub mod Entitlements
