-- ===== src/WebSocket.antt =====
-- The web socket client of the explorer: frontend/lib/websocket.
pub mod Value
pub mod Manager
pub mod Listeners
pub mod Events
pub mod Timers
pub mod Reconnect
pub mod Connection
pub mod Room
pub mod Provider
mod Tests
