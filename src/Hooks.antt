-- ===== src/Hooks.antt =====
-- datafusion-postgres/src/hooks: the query hooks.
pub mod Transactions
pub mod Permissions
pub mod SetShow
pub mod Cursor
pub mod Default
mod Tests
mod SettingTests
