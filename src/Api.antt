-- ===== src/Api.antt =====
-- The calls of the dashboard's API (frontend/src/lib/api-client.ts): each group of functions is a
-- data type of calls, with the arguments that `request` is given for each.
pub mod Auth
pub mod Events
pub mod Users
pub mod Monitor
pub mod Oversight
pub mod Keys
pub mod Activity
pub mod Account
pub mod Call
pub mod Direct
