-- ===== src/Matching.antt =====
-- internal/matchingengine: an order is matched against the open orders of the other side.
pub mod Matcher
pub mod Executor
pub mod Numbers
pub mod Laws
pub mod Prices
pub mod Priority
pub mod Choice
pub mod Engine
pub mod Conservation
pub mod Fills
pub mod Book
pub mod Rounds
pub mod Progress
pub mod Termination
pub mod Queue
