-- ===== src/Tests.antt =====
-- Runs of the model on small inputs, with the theorems at concrete values.
mod Catalogue
mod Billing
mod Requests
mod Accounts
mod Codes
mod Assistant
mod Training
mod Jobs
mod Members
