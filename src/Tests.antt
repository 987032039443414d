-- ===== src/Tests.antt =====
-- The theorems at concrete inputs, and a few runs of the code.
mod Fixtures
mod Usage
mod Routing
mod Service
mod Resilience
mod RateLimiter
mod Firewall
mod CacheInvalidation
mod Sealing
mod DashboardAuth
mod Admin
mod Release
mod Decompression
