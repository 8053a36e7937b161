-- ===== src/Tests.antt =====
-- Concrete packages and databases, and runs of the handlers on them.
pub mod World
pub mod SignIn
pub mod Access
pub mod Delivery
pub mod Publication
pub mod Journal
pub mod Retrieval
pub mod Client
pub mod Session
pub mod Assistance
pub mod OnChain
pub mod Hidden
pub mod Reopening
