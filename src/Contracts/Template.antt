-- ===== src/Contracts/Template.antt =====
-- backend/app/runtime/contracts.py: `WorkflowTaskTemplate` and `WorkflowDag`, with their validators and
-- `materialize`. What they raise ValueError for is `false` or `value_error`.
pub mod Keys
pub mod Closed
use Prim.Native.Char.{code}
use reviewlens_ai.Prelude.{
  ℕ, zero, suc, ◌+◌, String, Bool, true, false, not, ◌&&◌, ◌||◌, Option, none, some, List, [], ◌∷◌,
  ◌++◌, map, leb, ltb, eqb, ◌==◌, nat_eq, string_eq, contains, all, filter, length, if◌then◌else◌,
}
use reviewlens_ai.Contracts.RetryPolicy.{RetryPolicy, unique, valid_policy}
use reviewlens_ai.Contracts.Dag.{
  ExecutorKind, DependencyMode, Fanout, single, source_slots, Conditional, always, comments_enabled,
  WorkflowTaskSpec, is_some, is_agent, is_fan_in, valid_task, task_key, topological_order,
  known_dependencies,
}
use reviewlens_ai.Contracts.Dag.Order.{Sorted, sorted, cycle, out_of_fuel, order}
use reviewlens_ai.Contracts.Dag.Text.{codes, is_stable_key}
use reviewlens_ai.Runtime.Result.{
  Result, ok, raise, ◌>>=◌, ◌>>◌, guard, value_error, recursion_error,
}

pub record WorkflowTaskTemplate : Type 0 where
  pub template_key : String
  pub task_key : String
  pub executor_kind : ExecutorKind
  pub handler : String
  pub dependencies : List String
  pub retry : RetryPolicy
  pub timeout_seconds : ℕ
  pub weight : ℕ
  pub agent_version_id : Option ℕ
  pub tool_version_id : Option ℕ
  pub allowed_tool_version_ids : List ℕ
  pub fanout : Fanout
  pub conditional : Conditional
  pub dependency_mode : DependencyMode
  pub minimum_successes : ℕ
  pub optional : Bool

abbrev starts_with : String → String → Bool
starts_with String.[] s = true
starts_with (String.◌∷◌ c p) String.[] = false
starts_with (String.◌∷◌ c p) (String.◌∷◌ d s) = eqb (code c) (code d) && starts_with p s

abbrev append : String → String → String
append String.[] s = s
append (String.◌∷◌ c p) s = String.◌∷◌ c (append p s)

-- `text.replace("{index}", new)`, past the letters of a placeholder that are still to skip.
abbrev replace_from : ℕ → String → String → String
replace_from skip new String.[] = String.[]
replace_from (suc skip) new (String.◌∷◌ c s) = replace_from skip new s
replace_from zero new (String.◌∷◌ c s) =
    let replaced = replace_from 6 new s in
    let kept = replace_from 0 new s in
    if starts_with "{index}" (String.◌∷◌ c s) then append new replaced else String.◌∷◌ c kept

-- `"{index}" in text`.
abbrev has_index : String → Bool
has_index String.[] = false
has_index (String.◌∷◌ c s) = starts_with "{index}" (String.◌∷◌ c s) || has_index s

-- `str(index)`: there are at most 8 slots.
abbrev digits : ℕ → List String → String
digits i [] = ""
digits zero (d ∷ ds) = d
digits (suc i) (d ∷ ds) = digits i ds

abbrev index_text : ℕ → String
index_text i = digits i ("0" ∷ "1" ∷ "2" ∷ "3" ∷ "4" ∷ "5" ∷ "6" ∷ "7" ∷ "8" ∷ [])

unfoldable pub replace_index : ℕ → String → String
replace_index i text = replace_from 0 (index_text i) text

abbrev pub is_slots : Fanout → Bool
is_slots source_slots = true
is_slots single = false

abbrev is_always : Conditional → Bool
is_always always = true
is_always comments_enabled = false

-- The field bounds and `validate_template`.
unfoldable pub valid_template : WorkflowTaskTemplate → Bool
unfolding unique valid_policy is_stable_key replace_index
valid_template t =
    is_stable_key t.template_key
    && leb (length (codes t.task_key)) 140
    && is_stable_key (replace_index 1 t.task_key)
    && (if is_slots t.fanout then has_index t.task_key else not (has_index t.task_key))
    && is_stable_key t.handler
    && unique t.dependencies
    && not (contains t.dependencies t.template_key)
    && not (is_agent t.executor_kind && not (is_some t.agent_version_id))
    && not (is_fan_in t.dependency_mode && ltb t.minimum_successes 1)
    && valid_policy t.retry
    && (leb 1 t.timeout_seconds && leb t.timeout_seconds 900)
    && (leb 1 t.weight && leb t.weight 100)
    && leb t.minimum_successes 200

pub record WorkflowDag : Type 0 where
  pub schema_version : ℕ
  pub run_timeout_seconds : ℕ
  pub tasks : List WorkflowTaskSpec
  pub templates : List WorkflowTaskTemplate

abbrev template_key : WorkflowTaskTemplate → String
template_key t = t.template_key

abbrev template_deps : WorkflowTaskTemplate → List String
template_deps t = t.dependencies

abbrev pub as_result {ℓ} : {A : Type ℓ} → Sorted A → Result (List A)
as_result (sorted xs) = ok xs
as_result cycle = raise value_error
as_result out_of_fuel = raise recursion_error

unfoldable pub template_order : List WorkflowTaskTemplate → Result (List WorkflowTaskTemplate)
unfolding order
template_order ts = as_result (order template_key template_deps ts)

abbrev known_templates : List WorkflowTaskTemplate → Bool
known_templates ts = all (λ t. all (λ d. contains (map template_key ts) d) t.dependencies) ts

abbrev pub is_empty {ℓ} : {A : Type ℓ} → List A → Bool
is_empty [] = true
is_empty (x ∷ xs) = false

-- The bounds of the fields of WorkflowDag.
abbrev pub in_bounds : WorkflowDag → Bool
in_bounds g =
    leb 1 g.run_timeout_seconds
    && leb g.run_timeout_seconds 3600
    && leb (length g.tasks) 200
    && leb (length g.templates) 40

-- The field bounds and `validate_graph`, which run when a WorkflowDag is made.
unfoldable pub validate_graph : WorkflowDag → Result (Unit {0})
unfolding unique template_order topological_order valid_template
validate_graph g =
    if g.schema_version == 1
    then (do
      guard (in_bounds g) value_error
      guard (not (is_empty g.tasks) && is_empty g.templates) value_error
      guard (unique (map task_key g.tasks)) value_error
      guard (known_dependencies g.tasks) value_error
      specs ← as_result (topological_order g.tasks)
      ok tt)
    else (do
      guard (in_bounds g && all valid_template g.templates) value_error
      guard (not (is_empty g.templates) && is_empty g.tasks) value_error
      guard (unique (map template_key g.templates)) value_error
      guard (known_templates g.templates) value_error
      ts ← template_order g.templates
      ok tt)

-- `next(candidate for candidate in included if candidate.template_key == key)`.
unfoldable pub find_template : String → List WorkflowTaskTemplate → Option WorkflowTaskTemplate
find_template k [] = none
find_template k (t ∷ ts) =
    let rest = find_template k ts in if t.template_key == k then some t else rest

-- `range(first, first + count)`.
abbrev pub slots : ℕ → ℕ → List ℕ
slots first zero = []
slots first (suc count) = first ∷ slots (suc first) count

abbrev pub key_at : WorkflowTaskTemplate → ℕ → String
key_at t i = replace_index i t.task_key

abbrev pub keys_at : WorkflowTaskTemplate → List ℕ → List String
keys_at t [] = []
keys_at t (i ∷ is) = key_at t i ∷ keys_at t is

abbrev pub concrete_keys : ℕ → WorkflowTaskTemplate → List String
concrete_keys n t = if is_slots t.fanout then keys_at t (slots 1 n) else t.task_key ∷ []

-- The keys that stand for one dependency of an item at a slot.
abbrev pub upstream_keys : ℕ → Option ℕ → Option WorkflowTaskTemplate → List String
upstream_keys n index none = []
upstream_keys n none (some u) = concrete_keys n u
upstream_keys n (some i) (some u) = if is_slots u.fanout then key_at u i ∷ [] else concrete_keys n u

unfoldable pub concrete_dependencies :
    ℕ → List WorkflowTaskTemplate → Option ℕ → List String → List String
unfolding find_template
concrete_dependencies n included index [] = []
concrete_dependencies n included index (d ∷ ds) =
    upstream_keys n index (find_template d included) ++ concrete_dependencies n included index ds

abbrev slot_key : WorkflowTaskTemplate → Option ℕ → String
slot_key t none = t.task_key
slot_key t (some i) = key_at t i

abbrev slot_name : Option ℕ → Option String
slot_name none = none
slot_name (some i) = some (append "slot-" (index_text i))

unfoldable pub spec_at :
    ℕ → List WorkflowTaskTemplate → WorkflowTaskTemplate → Option ℕ → WorkflowTaskSpec
unfolding concrete_dependencies
spec_at n included t index = record {
  task_key = slot_key t index;
  executor_kind = t.executor_kind;
  handler = t.handler;
  dependencies = concrete_dependencies n included index t.dependencies;
  retry = t.retry;
  timeout_seconds = t.timeout_seconds;
  weight = t.weight;
  agent_version_id = t.agent_version_id;
  tool_version_id = t.tool_version_id;
  allowed_tool_version_ids = t.allowed_tool_version_ids;
  source_key = slot_name index;
  dependency_mode = t.dependency_mode;
  minimum_successes = t.minimum_successes;
  optional = t.optional;
}

abbrev pub specs_at :
    ℕ → List WorkflowTaskTemplate → WorkflowTaskTemplate → List ℕ → List WorkflowTaskSpec
specs_at n included t [] = []
specs_at n included t (i ∷ is) = spec_at n included t (some i) ∷ specs_at n included t is

abbrev pub specs_of : ℕ → List WorkflowTaskTemplate → WorkflowTaskTemplate → List WorkflowTaskSpec
specs_of n included t =
    if is_slots t.fanout then specs_at n included t (slots 1 n) else spec_at n included t none ∷ []

unfoldable pub expand :
    ℕ → List WorkflowTaskTemplate → List WorkflowTaskTemplate → List WorkflowTaskSpec
expand n included [] = []
expand n included (t ∷ ts) = specs_of n included t ++ expand n included ts

abbrev pub is_included : Bool → WorkflowTaskTemplate → Bool
is_included comments t = is_always t.conditional || comments

unfoldable pub materialize : ℕ → Bool → WorkflowDag → Result WorkflowDag
unfolding template_order expand validate_graph valid_task
materialize source_count comments g = if g.schema_version == 1 then ok g else do
  guard (leb 3 source_count && leb source_count 8) value_error
  ts ← template_order g.templates
  let included = filter (is_included comments) ts
  let out = record g {
    schema_version = 1;
    tasks = expand source_count included included;
    templates = [];
  }
  guard (all valid_task out.tasks) value_error
  u ← validate_graph out
  ok out
