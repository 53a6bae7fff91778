-- ===== src/WebSocket/Manager.antt =====
-- The class WebSocketManager of frontend/lib/websocket/websocket-manager.ts with the constants of
-- constants.ts. A method is a function of the state. What it asks of the browser (sockets, timers,
-- the call of a listener) is appended to `trace`; a new socket or timer takes its number from
-- `next_id`. Callbacks are numbered, since `Set` holds them by identity.
mod Core
mod Socket
mod Dispatch
unfoldable pub use Core.*
unfoldable pub use Socket.*
unfoldable pub use Dispatch.*
