-- ===== src/Admin.antt =====
-- The admin panel of an exchange: ocnserver/internal/admin, and the accounts, sessions and settings of
-- ocnserver/internal/store/admin.go and settings.go that it stands on.
mod Accounts
mod Panel
mod Handlers
mod Routes
pub mod Sessions
pub mod Passwords
pub mod Minting
pub mod Guarded
mod Tests
