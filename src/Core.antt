-- ===== src/Core.antt =====
-- packages/core: the enums, the rows, the state machine and the budget reservation.
pub mod Enums
pub mod StateMachine
pub mod Models
pub mod Database
pub mod Outcomes
pub mod Concurrency
