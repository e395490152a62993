-- ===== src/OrderBook/Priced.antt =====
-- A book that only saw decimal prices: `generateSnapshot` does not panic on it.
pub mod Sides
pub mod Books
