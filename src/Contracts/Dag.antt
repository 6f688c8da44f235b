-- ===== src/Contracts/Dag.antt =====
-- backend/app/runtime/contracts.py: `WorkflowTaskSpec` with its validator, and the order of the
-- tasks of a `WorkflowDag`. `input` and `priority`, which no code modelled here reads, are left out.
pub mod Order
pub mod Topological
pub mod Text
use reviewlens_ai.Prelude.{
  ℕ, String, Bool, true, false, not, ◌&&◌, ◌||◌, Option, none, some, List, [], ◌∷◌, map, ◌++◌, leb,
  ltb, ◌==◌, nat_eq, string_eq, contains, all, length, sum_by, if◌then◌else◌,
}
use reviewlens_ai.Contracts.RetryPolicy.{RetryPolicy, unique, valid_policy}
use Order.{Sorted, order}
use Text.{codes, is_stable_key}

pub data ExecutorKind : Type 0 where
  deterministic agent : ExecutorKind

pub data DependencyMode : Type 0 where
  all_succeeded all_terminal_min_success : DependencyMode

pub data Fanout : Type 0 where
  single source_slots : Fanout

pub data Conditional : Type 0 where
  always comments_enabled : Conditional

pub record WorkflowTaskSpec : Type 0 where
  pub task_key : String
  pub executor_kind : ExecutorKind
  pub handler : String
  pub dependencies : List String
  pub retry : RetryPolicy
  pub timeout_seconds : ℕ
  pub weight : ℕ
  pub agent_version_id : Option ℕ
  pub tool_version_id : Option ℕ
  pub allowed_tool_version_ids : List ℕ
  pub source_key : Option String
  pub dependency_mode : DependencyMode
  pub minimum_successes : ℕ
  pub optional : Bool

abbrev pub is_some {ℓ} : {A : Type ℓ} → Option A → Bool
is_some none = false
is_some (some a) = true

abbrev pub is_agent : ExecutorKind → Bool
is_agent agent = true
is_agent deterministic = false

abbrev pub is_fan_in : DependencyMode → Bool
is_fan_in all_terminal_min_success = true
is_fan_in all_succeeded = false

-- `(*allowed, *((tool,) if tool else ()))`.
abbrev tool_ids : List ℕ → Option ℕ → List ℕ
tool_ids allowed none = allowed
tool_ids allowed (some t) = allowed ++ t ∷ []

unique_ids : List ℕ → Bool
unique_ids [] = true
unique_ids (x ∷ xs) = not (contains xs x) && unique_ids xs

-- `max_length` of an optional text.
abbrev at_most : ℕ → Option String → Bool
at_most n none = true
at_most n (some s) = leb (length (codes s)) n

-- The field bounds and `validate_task`: what it raises ValueError for is `false`.
unfoldable pub valid_task : WorkflowTaskSpec → Bool
unfolding unique unique_ids valid_policy is_stable_key
valid_task t =
    is_stable_key t.task_key
    && is_stable_key t.handler
    && unique t.dependencies
    && not (contains t.dependencies t.task_key)
    && not (is_agent t.executor_kind && not (is_some t.agent_version_id))
    && unique_ids (tool_ids t.allowed_tool_version_ids t.tool_version_id)
    && not (is_fan_in t.dependency_mode && ltb t.minimum_successes 1)
    && valid_policy t.retry
    && (leb 1 t.timeout_seconds && leb t.timeout_seconds 900)
    && (leb 1 t.weight && leb t.weight 100)
    && leb t.minimum_successes 200
    && at_most 320 t.source_key

abbrev pub task_key : WorkflowTaskSpec → String
task_key t = t.task_key

abbrev pub dependencies : WorkflowTaskSpec → List String
dependencies t = t.dependencies

-- `WorkflowDag.topological_order` of a materialized workflow (schema version 1).
unfoldable pub topological_order : List WorkflowTaskSpec → Sorted WorkflowTaskSpec
unfolding order
topological_order tasks = order task_key dependencies tasks

-- `set(item.dependencies) - known` is empty for every item.
abbrev pub known_dependencies : List WorkflowTaskSpec → Bool
known_dependencies tasks =
    all (λ t. all (λ d. contains (map task_key tasks) d) t.dependencies) tasks
