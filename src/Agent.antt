-- ===== src/Agent.antt =====
-- The agent runtime (agent-runtime/app): contexts of agents, sessions with their messages and locks,
-- approvals, the event bus, and what keeps calls in bounds.
pub mod Context
pub mod Orchestration
pub mod CircuitBreaker
pub mod Approvals
pub mod Message
pub mod Session
pub mod SessionRepository
pub mod SessionManagement
pub mod Llm
pub mod Hitl
pub mod Tools
pub mod Chunk
pub mod StreamHandler
pub mod Agents
pub mod ContextTables
pub mod SessionMetrics
pub mod Metrics
pub mod Registry
pub mod Classifier
pub mod Switching
pub mod Switcher
pub mod Processing
pub mod ToolResults
pub mod Decision
pub mod SessionLock
pub mod RetryHandler
pub mod RateLimit
pub mod EventBus
