-- ===== src/Gateway.antt =====
-- The transactions of app/infrastructure/postgres_gateway.py.
pub mod Tables
pub mod Planting
pub mod Installing
pub mod Allocating
pub mod Stages
pub mod Advancing
pub mod Scheduling
pub mod Submitting
pub mod Starting
pub mod Converting
pub mod Sample
mod Tests
