-- ===== src/Lib.antt =====
-- A verification library for the control plane that lets agents spend money under mandates: the
-- policy engine, the reservation of budgets, the authentication of agents, the handlers of
-- operations, webhooks, mandates and agents, the gateway of tools, the client of the payment
-- gateway, and the worker that sweeps up what got stuck and reports what differs.
--
-- The program and its parts. A request (apps/api/routes/operations.py) is checked by the policy
-- engine (packages/policy/engine.py), reserves its amount on the row of its mandate
-- (packages/core/concurrency.py) and goes to the payment gateway (packages/razorpay/client.py). The
-- reservation ends when a payment is verified, when a webhook brings the outcome
-- (apps/api/routes/webhooks.py), or when the worker finds the operation stuck
-- (services/worker/main.py). Mandates are delegated down a tree, and suspended or revoked down the
-- tree (apps/api/routes/mandates.py). A caller is an agent by its key (packages/shared/auth.py); an
-- agent may also call tools (apps/api/routes/mcp_gateway.py, packages/mcp/catalog.py), which turn
-- into requests of its own. All parts share the tables (packages/core/models.py).
--
-- Files.
--   Prelude    names of the libraries, Boolean tests, lists, tables with keys, signed numbers, texts
--   Core       packages/core: Enums and StateMachine (enums.py, state_machine.py; Diagram is the
--              docstring's drawing), Models (models.py), Database (the session: tables, statements,
--              the errors that a handler raises), Concurrency (concurrency.py), Outcomes (rules for
--              what holds of a handler's answer where it does not raise)
--   Shared     packages/shared: RateLimiter (rate_limiter.py: the local bucket, and in Redis
--              the whole check), Auth (auth.py)
--   Policy     packages/policy/engine.py: Rules (one function for each rule class; Ancestors is the
--              walk up the tree), Engine (PolicyEngine.evaluate) with Decision, Approval, Ancestry
--   Ledger     the abstract view of the counters of a mandate: what the operations in flight hold;
--              Moves, Settlement and Reservation are the changes of the tables that keep it
--   Api        apps/api/routes: Gateway (the client as the handlers see it), Dispatch and Operations
--              (operations.py; Callers adds the authentication of the headers), PaymentEvents and
--              Webhooks (webhooks.py), Mandates (mandates.py; Issue is the root
--              mandate, Ledger that the handlers keep the ledger), Agents (agents.py), McpGateway
--              (mcp_gateway.py), AgentChat (agent_chat.py)
--   Mcp        packages/mcp/catalog.py: the registry of tools, and the filter
--   Razorpay   packages/razorpay/client.py: Retry (the loop of attempts), Client (the calls, live and
--              mock, and the record that the handlers take), Signature
--   Agents     packages/agents: Tools (tools.py), Lookup, Dispatch and Runner (runner.py; Acts and
--              Authority are what a turn leaves), Delegation (delegation.py)
--   Events     packages/events/bus.py: the bus, and the abstract bus that it refines
--   Worker     services/worker: the sweep (Sweep: the ledger, Recovery: crashes) and, in Loop, the
--              process around it (main.py), Report (reconciliation.py)
--   System     the handlers as steps of one relation on the tables
--   Examples   concrete tables and runs
--
-- How state is modelled. The tables are one record (Core.Database.Db), a list of rows for each, and
-- a handler is a function from its request and the tables to a result: the tables afterwards with
-- the answer, or the exception. A handler that raises leaves the tables as they were, as its
-- session is rolled back. Identifiers and keys that the code draws and the clock are arguments;
-- the outcome of the authentication is an argument of the inner request, which
-- Api.Operations.Callers.request_as fills from the headers. A turn of an agent commits with each of
-- its requests, so it is given the tables as committed and as they are in the session. Money is a
-- natural number in the smallest unit; the two counters of a mandate are signed, as a column is, and
-- their arithmetic does not wrap: Python's numbers are unbounded, and the sums stay far below the
-- 63 bits of the columns. Of the widths of columns those that a request can exceed, its currency and
-- its amount, are checked; identifiers and replies of the gateway are taken to fit.
--
-- What the code does not define. To the handlers the gateway is a record of functions
-- (Api.Gateway.RazorpayClient), about which nothing is assumed; Razorpay.Client.client_of makes one
-- from the client's own code over a network, whose attempts are a parameter. The digests of the
-- standard library are parameters, of which one theorem assumes that they are hexadecimal and that
-- two messages do not collide. The answer of the rate limiter is an argument of the policy engine,
-- the outcome of the comparison of signatures of the webhook, what a language model proposes one of
-- the turn of an agent. A handler of the event bus is any function of a state that does not subscribe
-- while it runs.
--
-- Fuel. The walk up the ancestors and the cascade down the tree are loops on fuel, with `none` for
-- a loop that did not finish. The walk needs a turn more than the depth of the mandate, in a tree
-- whose depths count up by one; the cascade a turn more than there are mandates, on any table,
-- since an identifier enters the queue once. The handler of requests gives the engine no session,
-- so it does not walk, and its fuel is 0. The retries of the client are a loop over the attempts that
-- are left.
--
-- Not modelled. Reading and listing, Redis (its replies are an argument of the rate limiter),
-- logging, metrics and tracing, the adapters of language models (packages/agents/adapter.py), the
-- scripted demonstrations, the evaluation harness and the web console.
-- A handler is taken as one step. Row locks (requests, delegation and the sweep take them) and the
-- conditional update order some handlers that run at once; webhooks, approvals and the verification
-- of a payment take no lock, so how those interleave with others is not modelled.
pub mod Prelude
pub mod Core
pub mod Shared
pub mod Policy
pub mod Ledger
pub mod Mcp
pub mod Razorpay
pub mod Events
pub mod Api
pub mod Agents
pub mod Worker
pub mod System
pub mod Examples
