-- ===== src/Book.antt =====
-- engine/orderbook.h and engine/orderbook.c: the limit order book of one instrument.
pub mod State
pub mod Pool
pub mod Lookup
pub mod Avl
pub mod Fifo
pub mod Matching
pub mod Manage
pub mod Query
pub mod Tree
