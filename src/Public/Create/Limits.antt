-- ===== src/Public/Create/Limits.antt =====
-- backend/app/public/admission.py: what holds after `create_analysis` has started a public analysis.
use reviewlens_ai.Prelude.{
  ℕ, suc, ◌≤◌, Bool, true, ◌≡◌, refl, Option, none, some, List, [], ◌∷◌, ◌==◌, nat_eq, string_eq,
  filter, length, arith, Bool-cases, inl, inr, ◌⊎◌,
}
use reviewlens_ai.Contracts.Status.{run_status_eq}
use reviewlens_ai.Runtime.Result.{Result, ok, raise}
use reviewlens_ai.Runtime.Ends.{either, Ends}
use reviewlens_ai.Public.Rate.{RateKey, SortedSets, rate_keys, RateReply, granted, refused}
use reviewlens_ai.Public.Admission.{
  ScriptReply, replies, unreachable, reply_lost, PublicPolicy, RequestIdentity, AdmittedRun,
  AdmissionDb, AnalysisRequest, published_policy,
}
use reviewlens_ai.Public.Create.{
  Decision, replay, new_analysis, is_public_request, decide, with_run, adopt_run, find_run,
  carry_out, replay_found, finish_run, with_reply, with_script, Answer, commit_run, reserve_run,
  create_analysis,
}
use reviewlens_ai.Public.Create.Conditions.{
  address, after_ip, after_session, is_active_run, is_queued_run, queued_runs,
}
use reviewlens_ai.Public.Create.Checked.{Room, Affordable, Begun, decide-Begun}

-- The counts after the request are within the limits.
pub record Within (q : AnalysisRequest) (db : AdmissionDb) (p : PublicPolicy) : Type 0 where
  pub queue : queued_runs db ≤ p.public_queue_capacity
  pub concurrent : length (filter (is_active_run q.actor_id) db.runs) ≤ p.public_concurrent_runs
  pub hourly :
      length (filter (after_ip q.now 3600 (address q)) db.submissions)
      ≤ p.rates.public_runs_per_hour
  pub daily_ip :
      length (filter (after_ip q.now 86400 (address q)) db.submissions)
      ≤ p.rates.public_runs_per_day
  pub daily_session :
      length (filter (after_session q.now 86400 q.actor_id) db.submissions)
      ≤ p.rates.public_runs_per_day

one_more :
    {A : Type 0} (p : A → Bool) (x : A) (xs : List A)
    → length (filter p (x ∷ xs)) ≤ suc (length (filter p xs))
one_more p x xs = elim (Bool-cases (p x)) [
  | inl y ↦ rw y (omega arith)
  | inr n ↦ rw n (omega arith)
]

with_run-Within :
    (q : AnalysisRequest) (options : RequestIdentity) (i : ℕ) (db : AdmissionDb) (p : PublicPolicy)
    → Room q db p
    → Within q (with_run q options i db) p
with_run-Within q options i db p room = record {
  queue = omega (arith, one_more is_queued_run _ db.runs, room.queue);
  concurrent = omega (arith, one_more (is_active_run q.actor_id) _ db.runs, room.concurrent);
  hourly = omega (arith, one_more (after_ip q.now 3600 (address q)) _ db.submissions, room.hourly);
  daily_ip =
      omega (arith, one_more (after_ip q.now 86400 (address q)) _ db.submissions, room.daily_ip);
  daily_session =
      omega (
        arith,
        one_more (after_session q.now 86400 q.actor_id) _ db.submissions,
        room.daily_session,
      );
}

adopt_run-queued :
    (i : ℕ) (user : Option ℕ) (xs : List AdmittedRun)
    → length (filter is_queued_run (adopt_run i user xs)) ≡ length (filter is_queued_run xs)
unfolding adopt_run
adopt_run-queued i user [] = refl
adopt_run-queued i user (x ∷ xs) = elim (Bool-cases (x.id == i)) [
  | inl y ↦ rw y (ground (arith, adopt_run-queued i user xs))
  | inr n ↦ rw n (ground (arith, adopt_run-queued i user xs))
]

-- Nothing was started, or it was and the limits hold.
abbrev pub StartedWithin : AnalysisRequest → AdmissionDb → AdmissionDb → Type 0
StartedWithin q db db' =
    ((db'.submissions ≡ db.submissions) × (queued_runs db' ≡ queued_runs db))
    ⊎ ((p : PublicPolicy) × ((published_policy db.active ≡ ok p)
          × (Within q db' p × Affordable q db p)))

finish_run-Within :
    (q : AnalysisRequest) (options : RequestIdentity) (keys : List RateKey) (db : AdmissionDb)
    (p : PublicPolicy) (sets : SortedSets) (m : Result ℕ)
    → published_policy db.active ≡ ok p
    → Room q db p × Affordable q db p
    → StartedWithin q db (finish_run q options keys db sets m).db
unfolding finish_run
finish_run-Within q options keys db p sets (raise x) e h = inl (refl, refl)
finish_run-Within q options keys db p sets (ok i) e h =
    either (λ (x : Answer). StartedWithin q db x.db) q.commits _ _
      (inr (p, (e, (with_run-Within q options i db p h.0, h.1)))) (inl (refl, refl))

with_reply-Within :
    (q : AnalysisRequest) (options : RequestIdentity) (db : AdmissionDb) (p : PublicPolicy)
    (x : RateReply × SortedSets)
    → published_policy db.active ≡ ok p
    → Room q db p × Affordable q db p
    → StartedWithin q db (with_reply q options db x).db
unfolding with_reply
with_reply-Within q options db p (refused at blocked, sets) e h = inl (refl, refl)
with_reply-Within q options db p (granted, sets) e h =
    finish_run-Within q options (rate_keys (address q) q.actor_id) db p sets q.created e h

with_script-Within :
    (q : AnalysisRequest) (options : RequestIdentity) (db : AdmissionDb) (p : PublicPolicy)
    (sets : SortedSets) (x : RateReply × SortedSets) (y : ScriptReply)
    → published_policy db.active ≡ ok p
    → Room q db p × Affordable q db p
    → StartedWithin q db (with_script q options db sets x y).db
unfolding with_script
with_script-Within q options db p sets x replies e h = with_reply-Within q options db p x e h
with_script-Within q options db p sets x unreachable e h = inl (refl, refl)
with_script-Within q options db p sets x reply_lost e h = inl (refl, refl)

replay_found-Within :
    (q : AnalysisRequest) (i : ℕ) (db : AdmissionDb) (sets : SortedSets) (m : Option AdmittedRun)
    → StartedWithin q db (replay_found q i db sets m).db
unfolding replay_found
replay_found-Within q i db sets none = inl (refl, refl)
replay_found-Within q i db sets (some x) = inl (refl, adopt_run-queued i q.user_id db.runs)

carry_out-Within :
    (q : AnalysisRequest) (db : AdmissionDb) (sets : SortedSets) (m : Result Decision)
    → is_public_request q ≡ true
    → Ends (Begun q db) m
    → StartedWithin q db (carry_out q db sets m).db
unfolding carry_out reserve_run
carry_out-Within q db sets (raise e) y h = inl (refl, refl)
carry_out-Within q db sets (ok (replay i)) y h =
    replay_found-Within q i db sets (find_run i db.runs)
carry_out-Within q db sets (ok (new_analysis options p)) y h =
    either (λ (x : Answer). StartedWithin q db x.db) (is_public_request q)
      (reserve_run q options p db sets) (commit_run q options [] db sets)
      (with_script-Within q options db p sets _ q.redis_reserves h.published (h.room y))
      (finish_run-Within q options [] db p sets q.created h.published (h.room y))

-- A public request starts no run, or it finds a published policy, and after it all counts are within
-- that policy's limits: the queued runs, the session's runs under way, and the submissions of the
-- address in an hour and a day and of the session in a day. Its estimate is within the caps of a run
-- and of the day.
pub create_analysis-StartedWithin :
    (q : AnalysisRequest) (db : AdmissionDb) (sets : SortedSets)
    → is_public_request q ≡ true
    → StartedWithin q db (create_analysis q db sets).db
unfolding create_analysis
create_analysis-StartedWithin q db sets y =
    carry_out-Within q db sets (decide q db sets) y (decide-Begun q db sets)
