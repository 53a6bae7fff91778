-- ===== src/Donation.antt =====
-- Donation campaigns: frontend/modules/donation-campaign.
pub mod Images
pub mod Feed
pub mod Campaign
pub mod Update
pub mod References
pub mod Withdraw
pub mod Browse
mod Tests
