-- ===== src/Auth.antt =====
-- Authentication by the backend itself: the accounts and refresh tokens
-- (app/infrastructure/auth_store.py), the signed tokens (app/core/tokens.py), the identity of a
-- caller (app/core/security.py) and the endpoints (app/routers/auth.py).
pub mod Store
pub mod Tokens
pub mod Sessions
pub mod Upstream
pub mod App
pub mod Endpoints
pub mod Identity
pub mod Requests
mod Tests
