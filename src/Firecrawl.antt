-- ===== src/Firecrawl.antt =====
-- The Firecrawl module: app/modules/firecrawl/*.py.
pub mod Usage
pub mod Models
pub mod Routing
pub mod Records
pub mod Repository
pub mod Client
pub mod Service
pub mod Refresh
pub mod Admin
