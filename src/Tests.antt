-- ===== src/Tests.antt =====
-- The theorems at concrete inputs. `Data` has the tables, the firewall and the application that they run on.
pub mod Data
pub mod Tables
pub mod Logins
pub mod Payments
pub mod Accounts
pub mod Handlers
