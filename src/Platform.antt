-- ===== src/Platform.antt =====
-- pkg and what the services share: text, errors, authentication, rate limits, the broker.
pub mod Text
pub mod Errors
pub mod Broker
pub mod RateLimit
