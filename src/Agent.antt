-- ===== src/Agent.antt =====
-- internal/agent: how the agents in different sandboxes talk to each other.
pub mod Gateway
