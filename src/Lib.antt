-- ===== src/Lib.antt =====
-- CodeLab AI service: a verification library for the Python services of this repository.
--
-- The repository is a set of services. auth-service gives out OAuth tokens; agent-runtime holds the
-- dialogues with agents of language models, their state and their requests for approval; gateway and
-- llm-proxy pass requests on. The library is about the parts of the first two that decide something.
--
-- auth-service/app. A form posted to the token endpoint (api/v1/oauth.py: `token_endpoint`,
-- `_handle_password_grant`, `_handle_refresh_grant`) is checked against the lockout, then by
-- `AuthService`, which asks the services of clients, users and tokens; the endpoint stores refresh
-- tokens and writes the audit log.
--   Auth.Tokens      models/refresh_token.py, services/refresh_token_service.py: the table is a list of
--                    rows; `judge` is the body of `validate_refresh_token` after the query, `revoke_if`
--                    and `revoke_in_chain` are what the two updates do to a row. Unique, Revocation,
--                    Validation and Safety hold the lemmas on it.
--   Auth.Crypto      the interface of python-jose, of the password hashes and of SHA-256 (none is in the
--                    repository), with the law that decoding an encoded token gives nothing or the
--                    claims that were encoded.
--   Auth.Claims      services/token_service.py, core/config.py, schemas/token.py.
--   Auth.Accounts    services/oauth_client_service.py, services/user_service.py and their models.
--   Auth.Administration the creation, change and deletion of users and clients in the same services.
--   Auth.Lockout     services/brute_force_protection.py over an interface of the Redis commands that it
--                    sends, each of which may fail, and of the time in which keys end; Counting counts
--                    failed logins, Memory is an instance.
--   Auth.RateLimiter services/rate_limiter.py and middleware/rate_limit.py over the same interface.
--   Auth.Grants      services/auth_service.py, schemas/oauth.py: a grant is a computation on the
--                    database that stops at the first check that fails.
--   Auth.Endpoint    api/v1/oauth.py. `begin_refresh` and `finish_refresh` are the two transactions of
--                    the refresh grant. Refresh, Identity, Rotation, Replay and Password are about it.
--
-- agent-runtime/app. A session holds messages; its context says which agent works and how it got there.
-- A message of the user, the result of a tool or a decision of the user goes to a handler, which puts
-- it into the session, chooses the agent and passes on the chunks that the agent streams; an agent gets
-- the answers of the language model from the stream handler, which records them and asks for approvals.
--   Agent.Context           domain/entities/agent_context.py, domain/entities/base.py.
--   Agent.ContextTables     infrastructure/persistence/models/agent_context.py, mappers/
--                           agent_context_mapper.py and repositories/agent_context_repository_impl.py.
--   Agent.Orchestration     domain/services/agent_orchestration.py over an interface of the repository,
--                           whose operations may raise, with the law that a saved context is found with
--                           its agent or cannot be read; Tables fills it with ContextTables.
--   Agent.Message           domain/entities/message.py.
--   Agent.Session           domain/entities/session.py.
--   Agent.SessionRepository infrastructure/persistence/models/session.py, mappers/session_mapper.py and
--                           repositories/session_repository_impl.py. Rows, RoundTrip, Saving, Loading
--                           and Cleanup hold the lemmas; Refinement is the map from sessions by their
--                           identifiers that the tables implement.
--   Agent.SessionManagement domain/services/session_management.py over the repository.
--   Agent.Approvals         infrastructure/persistence/repositories/approval_repository_impl.py; Manager
--                           and Policy are domain/services/approval_management.py and
--                           domain/entities/approval.py.
--   Agent.Hitl              domain/services/hitl_policy.py, domain/entities/hitl.py.
--   Agent.Llm               domain/entities/llm_response.py, domain/services/llm_response_processor.py.
--   Agent.Tools             domain/services/tool_registry.py, domain/services/tool_filter_service.py.
--   Agent.Chunk             api/v1/schemas/common.py.
--   Agent.StreamHandler     application/handlers/stream_llm_response_handler.py, with the session
--                           service and the approval manager as its state.
--   Agent.Agents            agents/: what an agent may do, and what it makes of each chunk; Checks has
--                           the five agents, Restrictions is about all of them.
--   Agent.Registry          domain/services/agent_registry.py.
--   Agent.Classifier        agents/orchestrator_agent.py.
--   Agent.Switching         domain/services/helpers/agent_switch_helper.py, with the session service and
--                           the orchestration service as its state.
--   Agent.Switcher          domain/services/agent_switcher.py.
--   Agent.Processing        domain/services/message_processor.py: an agent is a function into a stream
--                           that holds the services at each chunk.
--   Agent.ToolResults       domain/services/tool_result_handler.py.
--   Agent.Decision          domain/services/hitl_decision_handler.py; the enum that it imports from a
--                           module that is not in the repository is an argument.
--   Agent.EventBus          events/event_bus.py over an interface of what handlers do, with the tasks that
--                           a publisher who does not wait leaves.
--   Agent.SessionMetrics    events/subscribers/session_metrics_collector.py.
--   Agent.Metrics           events/subscribers/metrics_collector.py.
--   Agent.SessionLock       infrastructure/concurrency/session_lock.py, with its locks in a heap.
--   Agent.RateLimit         api/middleware/rate_limit.py.
--   Agent.RetryHandler      infrastructure/resilience/retry_handler.py.
--   Agent.CircuitBreaker    infrastructure/resilience/circuit_breaker.py, cut at the await of `call`.
--
-- Prelude holds what the parts share: tests, lists and texts over the native numbers, dictionaries as
-- association lists in insertion order, integers, and JSON values.
--
-- A method that changes an object returns the new record. Readings of the clock and fresh identifiers
-- are arguments; times are natural numbers of microseconds, except in JWT claims, which count seconds.
-- An exception is `none` or a constructor of a result. No recursion needs fuel.
--
-- Not modelled: logging, HTTP and WebSocket I/O, SQLAlchemy and its transactions beyond what a
-- service commits, the JWKS endpoint of auth-service, the clients of the language model and the
-- parsing of their answers, the routers, adapters and queries around the services of the agent
-- runtime, the gateway, the proxy, and the scripts, experiments and clients of the repository.
pub mod Prelude
pub mod Agent
pub mod Auth
