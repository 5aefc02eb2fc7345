-- ===== src/Order.antt =====
-- internal/order: the repository's statements and the order service.
pub mod Repository
pub mod Service
