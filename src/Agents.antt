-- ===== src/Agents.antt =====
-- packages/agents: the tools that a language model may call, the runner that executes its calls, and
-- the hand-over of an order from one agent to another.
pub mod Tools
pub mod Lookup
pub mod Dispatch
pub mod Runner
pub mod Acts
pub mod Authority
pub mod Delegation
