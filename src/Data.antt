-- ===== src/Data.antt =====
-- The generic data endpoints (app/routers/data.py) over the generic statements of the gateway
-- (app/infrastructure/postgres_gateway.py, app/infrastructure/data_gateway.py).
pub mod Tables
pub mod Statements
pub mod Router
pub mod Laws
pub mod Scoping
mod Tests
