-- ===== src/Policy.antt =====
-- packages/policy: the rules and the engine that runs them.
pub mod Rules
pub mod Engine
