-- ===== src/Examples.antt =====
-- The theorems at concrete inputs: a browser, sessions, events, users, keys and requests.
mod Data
pub mod Access
pub mod Clients
pub mod Pages
pub mod Portal
pub mod Settings
pub mod Plans
pub mod Tenants
pub mod Feeds
pub mod Dashboard
pub mod Composition
pub mod Forms
