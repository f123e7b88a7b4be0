-- ===== src/ServerState.antt =====
-- server/core/server_state.py: the logical state of the server and its registry of clients.
-- The lock makes each method one atomic step, so a method is a function of the state.
pub mod Fsm
pub mod Records
pub mod Event
pub mod Methods
pub mod Clients
pub mod Table
pub mod Inversion
pub mod WellFormed
pub mod Refusal
pub mod Invariant
pub mod History
pub mod Queries
pub mod Views
pub mod Snapshot
pub mod Modes
pub mod Configuration
pub mod Results
pub mod Acquisition
pub mod CanStart
pub mod Finalization
pub mod Landing
pub mod Guarantees
pub mod Safety
mod Tests
