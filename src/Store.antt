-- ===== src/Store.antt =====
-- The PostgreSQL database behind the repositories: its tables (migrations/), NUMERIC(20, 8) columns,
-- statements that may fail, and transactions that are rolled back or committed.
mod Rows
mod Columns
mod Session
pub mod Numeric
pub mod Laws
pub mod Reading
pub mod Keeping
unfoldable pub use Rows.*
unfoldable pub use Columns.*
unfoldable pub use Session.*
