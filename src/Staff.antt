-- ===== src/Staff.antt =====
-- The staff portal (staff-portal/src), with a session, a client and pages of its own.
pub mod Session
pub mod Client
pub mod Api
pub mod Login
pub mod Approval
pub mod Page
pub mod Plans
pub mod Support
pub mod Tenants
pub mod Tenant
pub mod Announcements
pub mod Admins
pub mod ClientUsers
pub mod ApiKeys
pub mod Subscriptions
pub mod AuditLog
pub mod Billing
pub mod Palette
pub mod Nav
pub mod Dashboard
pub mod Figures
pub mod Health
