-- ===== src/Orders.antt =====
-- engine/orders.h and engine/orders.c: validation and pre-processing of one order.
pub mod State
pub mod Validate
pub mod Liquidity
pub mod Preprocess
