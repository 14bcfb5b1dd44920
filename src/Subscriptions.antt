-- ===== src/Subscriptions.antt =====
-- kafka/consumer/subscription_state.py: what a consumer reads, and how far it is.
pub mod TopicName
pub mod Position
pub mod State
pub mod Assignment
pub mod Calls
pub mod WellFormed
pub mod Keeps
pub mod Placement
pub mod Subscribes
pub mod Assigns
pub mod User
pub mod Runs
pub mod Fetching
mod Tests
pub mod Subscribed
