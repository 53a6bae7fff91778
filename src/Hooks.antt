-- ===== src/Hooks.antt =====
-- Hooks that the features share: frontend/hooks, and the transfer of modules/transfer.
pub mod QueryParam
pub mod Debounce
pub mod Transfer
pub mod Pagination
pub mod TransferForm
pub mod Refresh
pub mod Strokes
mod Tests
