-- ===== src/Auth.antt =====
-- internal/auth, pkg/jwt and the middleware that authenticates: who is let in.
pub mod Token
pub mod Service
pub mod Middleware
pub mod Passed
pub mod Laws
pub mod Entry
