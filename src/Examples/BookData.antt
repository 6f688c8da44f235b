-- ===== src/Examples/BookData.antt =====
-- The books of a public run before its first paid call, and the request for that call.
use reviewlens_ai.Prelude.{ℕ, String, false, true, none, some, [], ◌∷◌}
use reviewlens_ai.Accounting.Books.{Books, BudgetPolicy, absent, flat, at_most}
use reviewlens_ai.Accounting.Reserve.{Request}
use reviewlens_ai.Examples.RunData.{a_budget}

abbrev pub a_policy : BudgetPolicy
a_policy = record {
  task_total_tokens = flat (at_most 800);
  task_cost_microusd = absent;
  agent_total_tokens = absent;
  agent_cost_microusd = absent;
  public_daily_cost_cap = 9000;
}

abbrev pub new_books : Books
new_books = record {
  kill_switch = some false;
  account = none;
  initiator_type = "public";
  budget = some a_budget;
  policy = some a_policy;
  evaluation = none;
  daily = [];
  reservations = [];
  usage = [];
}

abbrev pub request_for : ℕ → Request
request_for tokens = record {
  context = record {
    run_id = 1;
    task_run_id = 2;
    task_attempt_id = 7;
    agent_version_id = 5;
    workflow_version_id = 3;
    model_policy_version_id = 4;
    call_key = "main";
    deadline_at = 1000;
  };
  rows = record {
    run = some 1;
    task =
        some
          (record { id = 2; run_id = 1; workflow_task_key = "analyze"; agent_version_id = some 5 });
    attempt = some (record { id = 7; task_run_id = 2; is_running = true });
    snapshot = some (record { workflow_version_id = 3; model_policies = 4 ∷ [] });
  };
  operation = "chat";
  retry_number = 0;
  estimated_tokens = tokens;
  estimated_cost_microusd = 50;
  now = 10;
  today = 20;
  reservation_id = 9;
  app_env = "test";
  fingerprint = "";
}

abbrev pub key_text : ℕ → String
key_text n = "agent"
