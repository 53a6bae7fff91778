-- ===== src/P2p.antt =====
-- Peer-to-peer trading: frontend/modules/p2p.
pub mod Offer
pub mod Order
pub mod Cancel
pub mod Upload
pub mod Chat
pub mod Countdown
pub mod CreateOffer
pub mod Market
pub mod Payment
pub mod Purchase
pub mod TradingRoom
mod Tests
