-- ===== src/Notification.antt =====
-- services/notification: rows, repositories, services and workers.
pub mod Domain
pub mod Breaker
pub mod Repository
pub mod Email
pub mod Outbox
pub mod Dlq
pub mod Campaign
pub mod Preferences
pub mod Creation
pub mod Listing
pub mod Scheduler
pub mod Webhook
pub mod Seeder
