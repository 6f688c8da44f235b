-- ===== src/Lib.antt =====
-- The durable workflow runtime of ReviewLens, its accounting of paid model calls, and the admission of
-- public requests.
--
-- An analysis is a run: a graph of tasks, each executed in numbered attempts by workers that may die,
-- deliver twice or come late. backend/app/runtime/service.py keeps the run in the tables of
-- backend/app/db/models.py and changes them in short transactions; what must reach a worker or a
-- reader stands in an outbox table that the same transaction writes. Before a handler pays for a
-- model call, backend/app/llmops/accounting.py reserves its estimate under all caps, and settles it
-- when the call's usage is known.
--
-- Contracts (backend/app/runtime/contracts.py)
--   Status: the status enumerations and the transition tables (`require_run_transition`,
--     `require_task_transition`).
--   RetryPolicy: `RetryPolicy` and `delay_for_attempt`. The source computes in floats; here a delay is
--     the exact product, rounded down to a microsecond, and the float's overflow from attempt 1025 on is
--     an exception. RetryPolicy/Delay compares it with doubling.
--   Dag: `WorkflowTaskSpec` with its validator, and `topological_order`. Dag/Order is the loop on
--     pending items, on one unit of fuel for each item and one more; Dag/Order/Progress shows that this
--     is enough, Dag/Order/Members that a reported cycle leaves no order, Dag/Topological says what the
--     order is.
--   Template: `WorkflowTaskTemplate`, `WorkflowDag` with `validate_graph`, and `materialize`, which makes
--     a workflow of tasks out of templates; Template/Closed says what it writes.
-- Runtime (backend/app/runtime/service.py and clarification.py)
--   State: the rows of one run (`RunDb`) and the session's row operations; Result: the exceptions, which
--     end the transaction. Progress: `append_progress`, `queue_task_dispatch`, `_queue_task_revoke`,
--     `_close_budget`. Dependents: `_evaluate_dependents`, its recursion on fuel, one more than there
--     are tasks; Unblocks shows that this is enough. Finalize: `_finalize_run`. Claim: the first
--     transaction of `execute_task_run`. Attempts: `heartbeat_attempt` and the queries for attempts.
--     Complete: `_complete_attempt_success`, `_complete_attempt_failure`, `fail_active_attempt`.
--     Cancel: `request_cancellation`, `task_is_cancelled`. RetryTask: `retry_task`, its walk on fuel, two
--     more than there are dependencies; Walks shows that this is enough.
--     Clarification: `pause_for_product`, `expire_pending`, `answer_product`. Recover:
--     `recover_stale_attempts`, `repair_unfinished_runs` for one run.
--   Relay (backend/app/runtime/outbox.py): `relay_runtime_outbox` for the outbox of one run, a turn for
--     each item that the batch may take; a turn says what the clock, redis, the lock and Celery give, and
--     whether the relay dies before it settles the item. What a publication did before it raised stays
--     done. Redis: the commands that the relay and the readers send, an interface with what their documentation promises.
--     ReadProgress: `read_progress`. Relay/Rows: the item that is due and what becomes of its row.
--     Relay/Order, Messages, Settlement and Stream say what turns keep.
--   CreateRun: `create_run`, for a workflow and limits that are given; CreateRun/Starts has what it
--     writes, CreateRun/Templates that it takes what `materialize` makes.
--   History: the histories of a run, as sequences of these transactions. Consistent: what every one of
--     them keeps. Stops: what a cancellation reaches. Guards: when an attempt may start, and when a
--     retry is refused.
-- Public (backend/app/public/admission.py)
--   Rate: the script of `_reserve_rate` and `_release_rate`, on the sorted sets of redis. Rate/Ledger
--     holds the sets against a ledger of the granted reservations, by one clock that does not go back;
--     Limit, Retry and Undo say what follows.
--   Admission, Create: `normalize_options`, `_limits`, `_quota_decision` and `create_analysis`. What
--     `resolve_intent`, `_estimate` and `create_run` give, whether redis answers, with the reply of the
--     script lost or not, and whether the commit of a new run succeeds, stands in the request. Create/Conditions: those on a public request. Create/Limits, Repeats and Failures have its theorems.
-- Accounting (backend/app/llmops/accounting.py)
--   Transaction: `session_scope` of backend/app/db/session.py. Books: the rows. Account: the state of
--     the provider's account. Reserve: `reserve_request`. Settle: `finalize_failed_request`,
--     `finalize_successful_request`, `finalize_unreconcilable_request`. Caps, Steps and Within say what a
--     reservation leaves, Sums and Balance what the counters mean.
-- Prelude: the library's names, Boolean tests and lists. Examples: small rows and runs on them.
--
-- A UUID is a number, a time a number of microseconds, money a number of micro-dollars, a JSON column
-- a text. `stable_idempotency_key` hashes its parts: the model keeps the parts, so two keys are equal
-- only where their parts are. The clock, random samples, new ids and the settings are arguments. Each
-- function is one transaction: row locks order the transactions of a run, and a transaction that
-- raises leaves no trace. Hashes, labels and other columns that no modelled code reads are left out.
--
-- Not modelled: the handlers themselves and the tools and analyses that they run, which need the
-- network or a model (what they return or raise is an argument of the completions); `publish_report`
-- (backend/app/public/reports.py), which touches no row modelled here; `build_configuration_snapshot`,
-- which collects the published versions; transactions between the steps of one turn of the relay, and
-- the token of its lock; the cookies of anonymous sessions, `preflight` and the recovery that a refusal
-- shows; the other packages of backend/app; the frontend.
mod Prelude
pub mod Contracts
pub mod Runtime
pub mod Public
pub mod Accounting
pub mod Examples
