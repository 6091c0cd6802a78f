-- ===== src/Requests.antt =====
-- The endpoints of a garden request in app/routers/gardens.py, on PostgreSQL.
pub mod Status
pub mod Lifecycle
pub mod Calls
mod Tests
