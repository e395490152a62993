-- ===== src/OrderBook.antt =====
-- internal/runtime/orderbook_state.go: the in-memory order book of a market group. Levels is one
-- side of the book, Continuity the gap check, Export the sorted listing, State the book itself;
-- the other modules prove what they do.
pub mod Levels
pub mod Continuity
pub mod Export
pub mod State
pub mod Priced
