-- ===== src/Lib.antt =====
-- The decision logic of the manufacturing AI cost platform
-- (manufacturing-ai-cost-platform/backend/app/): who may see and do what, what a request may
-- spend, how a model call is retried, how fast a caller may ask. Paths below, and in
-- the other files, are from that directory or the one above it.
--
-- Parts, and how they interact. A request carries a principal; the security layer checks it
-- against a record, or resolves the rows that it may query. The orchestrator then asks the budget
-- gate, and calls the model through the gateway. The rate limiter stands before all of them.
--   * Base: names, lists, `Audit` (security/events.py: a check as a function from the trail of
--     security events to a result and a new trail), `Float` (Python's floats, by the operations
--     and the laws that the code uses).
--   * Security: security/permissions.py (Permission), security/principal.py (Principal),
--     security/authorization.py (Authorization), security/scope.py with
--     repositories/scope_filter.py (Scope). A Python exception is `err`, with the same name.
--   * Budget: policies/budget_policy.py, by `classify_state` and `evaluate_limit` (Limit), `decide`
--     (Decide), orchestrator/budget_gate.py's `evaluate` (Gate), and services/budget_service.py, by
--     the calendar (Periods) and `BudgetService.evaluate` on the rows of the budgets, the uses and
--     their costs (Service).
--   * Gateway: integrations/llm/client.py with integrations/llm/errors.py, by the circuit breakers
--     (Breaker) and `ResilientGateway._call` (Retry).
--   * RateLimit: core/rate_limit.py.
--   * Lifecycle: services/policy_lifecycle.py, by its rows and queries (Records), the decision on a
--     recommendation (Approval), and `apply_policy` and `rollback_policy` (Activation). A database
--     is the list of the rows of each table; an assignment to a row is a write by its primary key.
--   * Guardrails: guardrails/context_guard.py (Context), guardrails/limits.py (Limits),
--     guardrails/tool_guard.py (Tools).
--   * Cost: services/cost_engine.py (Engine) and services/currency.py (Currency). A decimal is a
--     type with the operations of `Arithmetic`.
--   * Registry: db/models/registry.py and repositories/model_repository.py, as a list of rows, and
--     services/model_registry.py, by the compatibility of models with workloads (Workload) and the
--     seed (Seed).
--   * Workloads: workloads/quality_check.py's parser (Quality).
--   * Orchestrator: orchestrator/classification.py (Classification), orchestrator/plan.py with the
--     planning of orchestrator/orchestrator.py (Selection, Plan), and its execution (Execution). A
--     request leaves a list of actions: lookups, calls of the gateway, records.
--   * Optimization: optimization/simulation.py (Simulation), whose registry is a function of the id,
--     and optimization/engine.py (Engine).
--   * Intelligence: intelligence/anomaly_detector.py (Sensors) and intelligence/
--     cost_anomaly_detector.py (Spikes). The literals of both are arguments.
-- The functions keep the names of the source, without a leading underscore.
--
-- Numbers. Counts are natural numbers. Money, percentages and seconds are floats: a type with the
-- operations of `Float`, whose order is that of finite values. A theorem that needs laws of the
-- order, of rounded addition or of rounded division takes them as hypotheses, which the tests fill
-- with whole numbers.
--
-- Time. An instant of a budget's period is a date and a microsecond of its day, in UTC; years have
-- no last one.
--
-- Texts. `Base.Text` has `strip`, `lower` and `upper` on ASCII texts.
--
-- Loops. All recursion is structural. `attempt_loop` counts the rounds that `range` has left.
-- `size_loop` takes fuel, one round for each value and key of the payload and one more, which is
-- proved to be enough.
--
-- Parameters. What the provider, the clocks and the jitter answer is the argument `World` of a
-- call; the budget repository is the argument `Loader` of `evaluate`. The model gateway, the
-- guardrails and the lookup of a workload are fields of the orchestrator's `Services`; `json.loads`,
-- `str` and `float` of a decoded value are the argument `Reader` of the quality check's parser.
--
-- Not modelled: HTTP routes and schemas, the ORM and its migrations, the provider's adapter, logging
-- and telemetry, the workers, the seed data, identity and tokens, the guardrails of inputs, outputs
-- and workloads (the orchestrator takes them as a parameter), the agents of workloads/, cost
-- aggregation beyond the spend of a budget, the forecaster, the investigations and the supply chain
-- of intelligence/, and the frontend: they are input and output, or left for a later extension.
pub mod Base
pub mod Security
pub mod Budget
pub mod Gateway
pub mod RateLimit
pub mod Lifecycle
pub mod Guardrails
pub mod Cost
pub mod Registry
pub mod Workloads
pub mod Orchestrator
pub mod Optimization
pub mod Intelligence
