-- ===== src/Accounts.antt =====
-- backend/apps/accounts: the lockout after failed attempts, the recovery codes of the second factor,
-- and the links that let a person choose a password.
pub mod Lockout
pub mod Ladder
pub mod SecondFactor
pub mod Invitations
pub mod CodeUses
pub mod RecoveryCodes
pub mod Links
pub mod Window
pub mod Rungs
