-- ===== src/Notification/Campaign.antt =====
-- services/notification/internal/worker/campaign_worker.go and its statements in
-- repository/campaign_repository.go: a campaign's users come from a stream, are published to the
-- campaign queue in batches, and each published batch is recorded on the campaign's row.
pub mod Table
pub mod Dispatch
pub mod Reaches
pub mod Service
mod Examples
