-- ===== src/DashboardAuth.antt =====
-- The dashboard's login: app/modules/dashboard_auth, app/core/auth and app/core/bootstrap.py.
pub mod Settings
pub mod Totp
pub mod Sessions
pub mod Results
pub mod Service
pub mod Locality
pub mod Access
pub mod Bootstrap
pub mod Api
