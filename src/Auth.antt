-- ===== src/Auth.antt =====
-- Login, tokens and sessions: frontend/modules/auth, frontend/service, frontend/providers,
-- frontend/utils/clear-storage.utils.ts and frontend/app/oauth2.
pub mod StorageKeys
pub mod Storage
pub mod Service
pub mod Flight
pub mod Session
pub mod Oauth
mod Tests
