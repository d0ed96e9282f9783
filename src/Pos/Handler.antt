-- ===== src/Pos/Handler.antt =====
-- MessageHandler of pos/handler.go.
pub mod Env
pub mod Payment
pub mod Promise
pub mod Service
pub mod Dispatch
pub mod Approval
pub mod Race
pub mod Pause
pub mod Settles
pub mod Retry
pub mod Decline
