-- ===== src/Ecr.antt =====
-- The cash register's side, ecr/.
pub mod Config
pub mod Client
pub mod Api
pub mod Payment
pub mod Receipt
mod Tests
