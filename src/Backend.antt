-- ===== src/Backend.antt =====
-- The web interface of backend/: its rate limiter, its access control, its location subscriber, its
-- sockets and its SQL.
pub mod RateLimit
pub mod Access
pub mod Alerts
pub mod Location
pub mod Sockets
pub mod Sql
pub mod Vehicles
