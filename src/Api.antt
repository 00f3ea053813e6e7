-- ===== src/Api.antt =====
-- apps/api/routes: the request handlers.
pub mod Gateway
pub mod Dispatch
pub mod Operations
pub mod PaymentEvents
pub mod Webhooks
pub mod Mandates
pub mod Agents
pub mod McpGateway
pub mod AgentChat
