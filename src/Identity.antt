-- ===== src/Identity.antt =====
-- services/identity: users, their stream to other services, tokens, and the seeding of users.
pub mod Users
pub mod Stream
pub mod Auth
pub mod Seeding
