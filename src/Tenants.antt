-- ===== src/Tenants.antt =====
-- backend/apps/tenants: the people of a client.
pub mod Members
pub mod Admins
pub mod Reach
pub mod Inactive
