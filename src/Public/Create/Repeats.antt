-- ===== src/Public/Create/Repeats.antt =====
-- backend/app/public/admission.py: `create_analysis` for a request that was answered before.
use reviewlens_ai.Prelude.{
  ℕ, true, ◌≡◌, refl, subst, Option, none, some, List, [], nat_eq, string_eq, Option-cases, inl,
  inr,
}
use reviewlens_ai.Runtime.Result.{Result, ok, raise, http_error}
use reviewlens_ai.Runtime.Ends.{Ends-any, Ends-self, either, Ends, Ends-bind, Ends-guard, Ends-if}
use reviewlens_ai.Public.Rate.{RateKey, SortedSets, rate_keys, RateReply, granted, refused}
use reviewlens_ai.Public.Admission.{
  ScriptReply, replies, unreachable, reply_lost, PublicPolicy, ActiveRow, RequestIdentity,
  RunSubmission, AdmittedRun, AdmissionDb, AnalysisRequest, find_submission, same_identity, limits,
}
use reviewlens_ai.Public.Create.{
  begin, requested, Decision, replay, new_analysis, is_public_request, decide, Answer, find_run,
  adopt_run, queued_run, submission_of, with_run, replay_found, finish_run, commit_run, with_reply,
  with_script, reserve_run, carry_out, create_analysis,
}
use reviewlens_ai.Public.Create.Conditions.{address, check_public}
use reviewlens_ai.Public.Create.Known.{
  again, same_identity_refl, Known, find_run-adopt, again-Known,
}

-- What a decision was made on.
abbrev Traced : AnalysisRequest → AdmissionDb → Decision → Type 0
Traced q db (replay i) =
    (options : RequestIdentity) × ((requested q db.active ≡ ok options)
      × ((row : RunSubmission) × ((find_submission q db.submissions ≡ some row)
            × ((same_identity row.request_hash options ≡ true) × (row.run_id ≡ i)))))
Traced q db (new_analysis options p) = requested q db.active ≡ ok options

begin-Traced :
    (q : AnalysisRequest) (db : AdmissionDb) (sets : SortedSets) (options : RequestIdentity)
    (a : ActiveRow) (p : PublicPolicy)
    → requested q db.active ≡ ok options
    → Ends (Traced q db) (begin q db sets options a p)
unfolding begin
begin-Traced q db sets options a p e =
    Ends-if (Traced q db) (is_public_request q) _ _
      (λ y.
        Ends-bind (λ x. Unit) (Traced q db) (check_public q db sets a p) _
          (Ends-any (check_public q db sets a p)) (λ x h. e))
      (λ n. e)

decide-Traced :
    (q : AnalysisRequest) (db : AdmissionDb) (sets : SortedSets)
    → Ends (Traced q db) (decide q db sets)
unfolding decide
decide-Traced q db sets =
    Ends-bind (λ o. requested q db.active ≡ ok o) (Traced q db) (requested q db.active) _
      (Ends-self (requested q db.active))
      (λ options asked. elim (Option-cases (find_submission q db.submissions)) [
        | inr (s, f) ↦
            rw (Ends, f)
              (Ends-if (Traced q db) (same_identity s.request_hash options) _ _
                (λ y. (options, (asked, (s, (f, (y, refl)))))) (λ n. tt))
        | inl f ↦
            rw (Ends, f)
              (Ends-guard (Traced q db) q.intent_resolved
                (http_error 409 "product_clarification_required") _
                (λ resolved.
                  Ends-bind (λ ap. Unit) (Traced q db) (limits db) _ (Ends-any (limits db))
                    (λ ap u. begin-Traced q db sets options ap.0 ap.1 asked)))
      ])

with_run-Known :
    (q : AnalysisRequest) (options : RequestIdentity) (i : ℕ) (db : AdmissionDb)
    → requested q db.active ≡ ok options
    → Known q (with_run q options i db) i
unfolding find_submission find_run
with_run-Known q options i db asked = record {
  options = options;
  asked = asked;
  row = submission_of q options i;
  found =
      rw
        (
          (string_eq.equal_iff q.actor_type q.actor_type).1 refl,
          (nat_eq.equal_iff q.actor_id q.actor_id).1 refl,
          (string_eq.equal_iff q.idempotency_key q.idempotency_key).1 refl,
        )
        refl;
  same = same_identity_refl options;
  its_run = refl;
  run = queued_run q i;
  has_run = rw ((nat_eq.equal_iff i i).1 refl) refl;
}

abbrev Kept : AnalysisRequest → ℕ → Answer → Type 0
Kept q i x = x.reply ≡ ok i → Known q x.db i

finish_run-Known :
    (q : AnalysisRequest) (options : RequestIdentity) (keys : List RateKey) (db : AdmissionDb)
    (sets : SortedSets) (m : Result ℕ) (i : ℕ)
    → requested q db.active ≡ ok options
    → Kept q i (finish_run q options keys db sets m)
unfolding finish_run
finish_run-Known q options keys db sets (raise e) i asked = λ h. absurd cc
finish_run-Known q options keys db sets (ok j) i asked =
    either (Kept q i) q.commits _ _
      (λ h.
        let e : j ≡ i = cc in
        subst (λ n. Known q (with_run q options j db) n) e (with_run-Known q options j db asked))
      (λ h. absurd cc)

with_reply-Known :
    (q : AnalysisRequest) (options : RequestIdentity) (db : AdmissionDb)
    (x : RateReply × SortedSets) (i : ℕ)
    → requested q db.active ≡ ok options
    → Kept q i (with_reply q options db x)
unfolding with_reply
with_reply-Known q options db (refused at blocked, sets) i asked = λ h. absurd cc
with_reply-Known q options db (granted, sets) i asked =
    finish_run-Known q options (rate_keys (address q) q.actor_id) db sets q.created i asked

with_script-Known :
    (q : AnalysisRequest) (options : RequestIdentity) (db : AdmissionDb) (sets : SortedSets)
    (x : RateReply × SortedSets) (y : ScriptReply) (i : ℕ)
    → requested q db.active ≡ ok options
    → Kept q i (with_script q options db sets x y)
unfolding with_script
with_script-Known q options db sets x replies i asked = with_reply-Known q options db x i asked
with_script-Known q options db sets x unreachable i asked = λ h. absurd cc
with_script-Known q options db sets x reply_lost i asked = λ h. absurd cc

replay_found-Known :
    (q : AnalysisRequest) (j i : ℕ) (db : AdmissionDb) (sets : SortedSets) (m : Option AdmittedRun)
    → find_run j db.runs ≡ m
    → Traced q db (replay j)
    → Kept q i (replay_found q j db sets m)
unfolding replay_found
replay_found-Known q j i db sets none f t = λ h. absurd cc
replay_found-Known q j i db sets (some x) f (options, (asked, (row, (found, (same, its))))) = λ h.
    let e : j ≡ i = cc in
    let run = find_run-adopt j q.user_id x db.runs f in
    subst (λ n. Known q (record db { runs = adopt_run j q.user_id db.runs }) n) e
      (record {
        options = options;
        asked = asked;
        row = row;
        found = found;
        same = same;
        its_run = its;
        run = run.0;
        has_run = run.1;
      })

carry_out-Known :
    (q : AnalysisRequest) (db : AdmissionDb) (sets : SortedSets) (m : Result Decision) (i : ℕ)
    → Ends (Traced q db) m
    → Kept q i (carry_out q db sets m)
unfolding carry_out reserve_run
carry_out-Known q db sets (raise e) i t = λ h. absurd cc
carry_out-Known q db sets (ok (replay j)) i t =
    replay_found-Known q j i db sets (find_run j db.runs) refl t
carry_out-Known q db sets (ok (new_analysis options p)) i t =
    either (Kept q i) (is_public_request q) (reserve_run q options p db sets)
      (commit_run q options [] db sets) (with_script-Known q options db sets _ q.redis_reserves i t)
      (finish_run-Known q options [] db sets q.created i t)

create_analysis-Known :
    (q : AnalysisRequest) (db : AdmissionDb) (sets : SortedSets) (i : ℕ)
    → Kept q i (create_analysis q db sets)
unfolding create_analysis
create_analysis-Known q db sets i =
    carry_out-Known q db sets (decide q db sets) i (decide-Traced q db sets)

-- Once a request has been answered with a run, the same request of the same actor under the same key
-- is answered with that run, whatever the intent, the estimate, the limits and redis say then. It
-- reserves nothing and writes nothing but the user of a run that had none.
pub create_analysis-again :
    (q o : AnalysisRequest) (db : AdmissionDb) (sets sets' : SortedSets) (i : ℕ)
    → (create_analysis q db sets).reply ≡ ok i
    → create_analysis (again q o) (create_analysis q db sets).db sets' ≡ record {
      reply = ok i;
      db = record (create_analysis q db sets).db {
        runs = adopt_run i o.user_id (create_analysis q db sets).db.runs;
      };
      sets = sets';
    }
create_analysis-again q o db sets sets' i h =
    again-Known q o (create_analysis q db sets).db sets' i (create_analysis-Known q db sets i h)
