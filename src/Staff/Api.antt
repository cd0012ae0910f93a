-- ===== src/Staff/Api.antt =====
-- The calls of the staff portal (staff-portal/src/lib/api-client.ts): each group of functions is a
-- data type of calls, with the arguments that `request` is given for each.
pub mod Access
pub mod Tenants
pub mod Plans
pub mod Notices
pub mod Call
