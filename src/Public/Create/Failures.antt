-- ===== src/Public/Create/Failures.antt =====
-- backend/app/public/admission.py: what a `create_analysis` that raises leaves behind.
use Prim.Native.Nat.{◌/◌}
use reviewlens_ai.Prelude.{ℕ, String, Bool, true, false, ◌≡◌, refl, Option, none, some, List, []}
use reviewlens_ai.Runtime.State.{second}
use reviewlens_ai.Runtime.Result.{Exception, Result, ok, raise}
use reviewlens_ai.Public.Rate.{
  RateKey, SortedSets, rate_keys, zrem_all, RateReply, granted, refused, release_rate,
}
use reviewlens_ai.Public.Rate.Ledger.{SameSets}
use reviewlens_ai.Public.Rate.Undo.{Unused, settled, reserve_rate-undone}
use reviewlens_ai.Public.Admission.{
  ScriptReply, replies, unreachable, reply_lost, AdmissionDb, AnalysisRequest, RequestIdentity,
  AdmittedRun,
}
use reviewlens_ai.Public.Create.{
  Decision, replay, new_analysis, is_public_request, decide, Answer, find_run, replay_found,
  finish_run, commit_run, with_reply, with_script, reserve_run, carry_out, create_analysis,
}
use reviewlens_ai.Public.Create.Conditions.{address}
use reviewlens_ai.Runtime.Ends.{either}

-- If the answer is an error, the rows are as before, and as many reservations count.
abbrev Untouched : AnalysisRequest → AdmissionDb → SortedSets → Answer → Type 0
Untouched q db sets x =
    (e : Exception) → x.reply ≡ raise e → (x.db ≡ db) × SameSets (q.now / second) x.sets sets

finish_run-Untouched :
    (q : AnalysisRequest) (options : RequestIdentity) (keys : List RateKey) (db : AdmissionDb)
    (sets sets' : SortedSets) (m : Result ℕ)
    → SameSets (q.now / second) (release_rate q.redis_releases q.token keys sets') sets
    → Untouched q db sets (finish_run q options keys db sets' m)
unfolding finish_run
finish_run-Untouched q options keys db sets sets' (ok i) h =
    either (Untouched q db sets) q.commits _ _ (λ e r. absurd cc) (λ e r. (refl, h))
finish_run-Untouched q options keys db sets sets' (raise x) h = λ e r. (refl, h)

with_reply-Untouched :
    (q : AnalysisRequest) (options : RequestIdentity) (db : AdmissionDb) (sets : SortedSets)
    (x : RateReply × SortedSets)
    → q.redis_releases ≡ true
    → SameSets (q.now / second) (settled q.token (rate_keys (address q) q.actor_id) x) sets
    → Untouched q db sets (with_reply q options db x)
unfolding with_reply
with_reply-Untouched q options db sets (refused at blocked, sets') up h = λ e r. (refl, h)
with_reply-Untouched q options db sets (granted, sets') up h =
    finish_run-Untouched q options (rate_keys (address q) q.actor_id) db sets sets' q.created
      (rw up h)

abbrev pub is_lost : ScriptReply → Bool
is_lost reply_lost = true
is_lost _ = false

with_script-Untouched :
    (q : AnalysisRequest) (options : RequestIdentity) (db : AdmissionDb) (sets : SortedSets)
    (x : RateReply × SortedSets) (y : ScriptReply)
    → is_lost y ≡ false
    → q.redis_releases ≡ true
    → SameSets (q.now / second) (settled q.token (rate_keys (address q) q.actor_id) x) sets
    → Untouched q db sets (with_script q options db sets x y)
unfolding with_script
with_script-Untouched q options db sets x replies l up h =
    with_reply-Untouched q options db sets x up h
with_script-Untouched q options db sets x unreachable l up h = λ e r. (refl, λ k t le p. refl)
with_script-Untouched q options db sets x reply_lost l up h = absurd cc

replay_found-Untouched :
    (q : AnalysisRequest) (i : ℕ) (db : AdmissionDb) (sets : SortedSets) (m : Option AdmittedRun)
    → Untouched q db sets (replay_found q i db sets m)
unfolding replay_found
replay_found-Untouched q i db sets none e r = (refl, λ k t le p. refl)
replay_found-Untouched q i db sets (some x) e r = absurd cc

release_none :
    (b : Bool) (token : String) (sets : SortedSets) (now : ℕ)
    → SameSets now (release_rate b token [] sets) sets
unfolding zrem_all
release_none true token sets now k t le p = refl
release_none false token sets now k t le p = refl

carry_out-Untouched :
    (q : AnalysisRequest) (db : AdmissionDb) (sets : SortedSets) (m : Result Decision)
    → is_lost q.redis_reserves ≡ false
    → q.redis_releases ≡ true
    → Unused q.token sets
    → Untouched q db sets (carry_out q db sets m)
unfolding carry_out reserve_run
carry_out-Untouched q db sets (raise x) l up h = λ e r. (refl, λ k t le p. refl)
carry_out-Untouched q db sets (ok (replay i)) l up h =
    replay_found-Untouched q i db sets (find_run i db.runs)
carry_out-Untouched q db sets (ok (new_analysis options p)) l up h =
    either (Untouched q db sets) (is_public_request q) (reserve_run q options p db sets)
      (commit_run q options [] db sets)
      (with_script-Untouched q options db sets _ q.redis_reserves l up
        (reserve_rate-undone p.rates (q.now / second) (address q) q.actor_id q.token sets h))
      (finish_run-Untouched q options [] db sets sets q.created
        (release_none q.redis_releases q.token sets (q.now / second)))

-- A request that raises, at whichever step up to the commit of its run, leaves the committed rows as
-- they were; and no key has more or fewer reservations that count, if redis answers the release, the
-- script's reply is not lost after it ran, and the request's token is new.
pub create_analysis-raises :
    (q : AnalysisRequest) (db : AdmissionDb) (sets : SortedSets) (e : Exception)
    → is_lost q.redis_reserves ≡ false
    → q.redis_releases ≡ true
    → Unused q.token sets
    → (create_analysis q db sets).reply ≡ raise e
    → ((create_analysis q db sets).db ≡ db)
      × SameSets (q.now / second) (create_analysis q db sets).sets sets
unfolding create_analysis
create_analysis-raises q db sets e l up h r =
    carry_out-Untouched q db sets (decide q db sets) l up h e r
