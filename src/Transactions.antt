-- ===== src/Transactions.antt =====
-- kafka/producer/transaction_manager.py: the transactional producer's state machine.
pub mod State
pub mod Requests
pub mod Manager
pub mod Calls
pub mod NextRequest
pub mod Handlers
pub mod Offsets
pub mod Complete
pub mod Queue
pub mod Evolution
pub mod Runs
pub mod Dequeue
mod Tests
pub mod Responses
pub mod Completion
pub mod Sends
pub mod Sequence
