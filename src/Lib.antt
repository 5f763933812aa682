-- ===== src/Lib.antt =====
-- Billing Recovery Execution Console: a Streamlit console in which an operator takes a billing
-- case through policy evaluation, human approval, execution against a provider, retries,
-- reconciliation and manual recovery, with an audit trail. All state is in one SQLite database,
-- which the services read and write; the panels of src/ui call the services. Paths are those of
-- the repository.
--
-- Common      texts, integers and Boolean tests of Python; Common/Text has strip, lower, upper, title
--             and decimal numerals, on the characters that its header lists; Common/Money has
--             format_amount.
-- Table       a table is the list of its rows, oldest first, with SELECT, COUNT, UPDATE and
--             INSERT, and the laws that connect them; Table/Sorting is ORDER BY as an interface.
-- Rules       the constants of src/execution/execution_rules.py, src/approvals/approval_rules.py,
--             src/policy/rules.py and src/dependencies/dependency_modes.py.
-- Database    src/database.py: a record per CREATE TABLE (Database/Rows), what comes from outside
--             (Database/Environment), and service functions as actions that read and write the
--             database and may raise (Database/Monad). Each statement is committed as it is run, so
--             what was written before a raise stays written; only src/seed.py commits at its end.
-- Audit       src/audit/audit_service.py, record_audit_event.
-- Cases       src/cases/case_service.py, get_case_by_id and update_case_status; format_amount is in
--             Common/Money, get_all_cases in History.
-- History     the listings of src/cases, src/execution, src/reconciliation, src/recovery and
--             src/audit, each a query with ORDER BY.
-- Policy      src/policy/policy_engine.py (Policy/Engine) and src/policy/policy_service.py
--             (Policy/Service).
-- Approvals   src/approvals/approval_service.py.
-- Providers   src/providers: the mock adapter (Mock), the Stripe adapter (Stripe,
--             StripePayments, StripeRefunds) and the Stripe test payments (TestPayments).
-- Execution   src/execution/idempotency.py, src/execution/retry_policy.py and
--             src/execution/execution_service.py: queries and updates (Requests), the maps between
--             statuses (Statuses), one attempt (Attempts), create_execution_request (Creation), and
--             the calls that execute and retry (Runs).
-- Reconciliation  src/reconciliation/reconciliation_service.py.
-- Recovery    src/recovery/manual_recovery_service.py.
-- Briefs      src/ai/billing_summary.py: the briefs (Payloads), and making, storing and reading one
--             (Service); Advice, Complete and Totality are on what a brief changes and holds, and when
--             it is stored.
-- Metrics     src/analytics/ops_metrics.py: counts (Counts) and queues (Queues); Groups and Joins have
--             what GROUP BY and JOIN count, Orders the order of the queues.
-- Dependencies  src/dependencies/dependency_state.py; the session state is an association list.
-- Seed        src/seed.py.
-- Ui          src/ui/status_helpers.py.
-- Effects     relations between the databases before and after an action, and which writes each
--             service call makes; Effects/Spec has conditions before and after an action,
--             Effects/Returns those of actions that raise nothing.
-- Workflow    a panel's service call as a command, and runs of commands in any order.
-- Safety      Hoare triples over the tables of requests and attempts, the limits on attempts, and what
--             the calls that execute, refund and retry return.
-- Lifecycle   the machine of an execution request (Steps), the writes of the services as its steps
--             (Writes), and each service call as a sequence of them.
-- Liveness    calls that return: the identifiers they draw, and the request they work on.
-- Authority   what has to be in the database before an approval or an execution request is added.
-- Tests       concrete inputs, and the theorems at them.
--
-- Parameters. The random identifiers of uuid4, the times, the variable STRIPE_SECRET_KEY and the
-- answers of the Stripe API are fields of Env (Database/Environment); a call of the API returns or
-- raises, and may answer otherwise each time. `latest` stands for the choice that ORDER BY
-- created_at DESC LIMIT 1 makes; PicksLatest states what SQL documents of it, and the theorems that
-- need it name it. Identifiers may collide: an INSERT of a taken key raises IntegrityError.
--
-- Which texts sqlite3 can bind is the parameter `encodable`: a lone surrogate, which json.loads accepts,
-- cannot be encoded as UTF-8. The briefs, whose texts come from OpenAI, are inserted where all their
-- texts can be; the texts of the other tables, which are the operators', Stripe's and the program's own,
-- are taken to be ones that can.
--
-- The answers of the OpenAI API are a field of Env too: OpenAI(), the call and json.loads together
-- return the entries of an object or raise, and Answer keeps of a value what the code looks at. The
-- sorting of ORDER BY is the parameter Sorter (Table/Sorting), since SQL leaves the order of rows
-- with equal keys open; Tests/Sorter fills it. The file of cases that is seeded is an argument.
--
-- Bounds. Recursion is structural, but for decimal numerals and their groups of thousands, which run
-- on fuel n + 1 for the number n, more than its digits. Amounts are Python's unbounded integers;
-- format_amount divides exactly, as the source's floats do while a number of cents is below 2 ^ 53.
--
-- Not modelled: the Streamlit panels (the rest of src/ui, app.py), which render what the services
-- return and call them. Foreign keys are not enforced by SQLite as the program configures it, and are
-- left out.
pub mod Common
pub mod Table
pub mod Rules
pub mod Database
pub mod Audit
pub mod Cases
pub mod Policy
pub mod Approvals
pub mod Providers
pub mod Briefs
pub mod Execution
pub mod Reconciliation
pub mod Recovery
pub mod History
pub mod Metrics
pub mod Ui
pub mod Dependencies
pub mod Seed
pub mod Effects
pub mod Workflow
pub mod Safety
pub mod Authority
pub mod Lifecycle
pub mod Liveness
mod Tests
