-- ===== src/Auth.antt =====
-- Who may do what: src/auth/authorization.ts, the sessions of src/persistence/session-store.ts and
-- src/http/session-boundary.ts, and the login of src/auth/auth-service.ts.
pub mod Authorization
pub mod Boundary
pub mod Csrf
pub mod Callback
pub mod CallbackRequest
pub mod Cookies
mod Log
pub mod Ports
pub mod OauthState
pub mod Service
pub mod Session
pub mod Tests
