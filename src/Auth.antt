-- ===== src/Auth.antt =====
-- internal/web/auth.go and users.go: the limit on failed logins, roles and accounts, sessions.
pub mod LoginRate
pub mod Lockout
pub mod Roles
pub mod Session
pub mod Access
pub mod Accounts
pub mod Change
pub mod Revocation
pub mod Right
pub mod Login
