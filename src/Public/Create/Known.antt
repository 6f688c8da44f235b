-- ===== src/Public/Create/Known.antt =====
-- backend/app/public/admission.py: a request that the rows know is answered with its run.
use reviewlens_ai.Prelude.{
  ℕ, String, Bool, true, false, ◌≡◌, refl, Option, none, some, List, [], ◌∷◌, ◌==◌, nat_eq,
  string_eq, length, arith, Bool-cases, inl, inr,
}
use reviewlens_ai.Runtime.Result.{ok}
use reviewlens_ai.Public.Rate.{SortedSets}
use reviewlens_ai.Public.Admission.{
  ActiveRow, RequestIdentity, RunSubmission, AdmittedRun, AdmissionDb, AnalysisRequest,
  normalize_options, find_submission, same_identity, same_bool, same_text,
}
use reviewlens_ai.Public.Create.{
  requested, decide, find_run, adopt_run, adopted, replay_found, carry_out, create_analysis,
}

-- The request `q` once more: the same content, actor and key, and everything else as in `o`.
abbrev pub again : AnalysisRequest → AnalysisRequest → AnalysisRequest
again q o = record o {
  product_name = q.product_name;
  video_count = q.video_count;
  analyze_comments = q.analyze_comments;
  locale = q.locale;
  intent_confirmation = q.intent_confirmation;
  actor_type = q.actor_type;
  actor_id = q.actor_id;
  idempotency_key = q.idempotency_key;
}

pub same_identity_refl : (x : RequestIdentity) → same_identity x x ≡ true
unfolding same_identity
same_identity_refl x =
    let product = (string_eq.equal_iff x.product_name x.product_name).1 refl in
    let language = (string_eq.equal_iff x.language x.language).1 refl in
    let count = (nat_eq.equal_iff x.source_count x.source_count).1 refl in
    rw
      (
        product,
        language,
        count,
        same_bool-self x.analyze_comments,
        same_text-self x.intent_confirmation,
      )
      refl
  where
    same_bool-self : (b : Bool) → same_bool b b ≡ true
    same_bool-self true = refl
    same_bool-self false = refl

    same_text-self : (t : Option String) → same_text t t ≡ true
    same_text-self none = refl
    same_text-self (some s) = (string_eq.equal_iff s s).1 refl

-- The rows know the request `q` by the run `i`.
pub record Known (q : AnalysisRequest) (db : AdmissionDb) (i : ℕ) : Type 0 where
  pub options : RequestIdentity
  pub asked : requested q db.active ≡ ok options
  pub row : RunSubmission
  pub found : find_submission q db.submissions ≡ some row
  pub same : same_identity row.request_hash options ≡ true
  pub its_run : row.run_id ≡ i
  pub run : AdmittedRun
  pub has_run : find_run i db.runs ≡ some run

find_submission-again :
    (q o : AnalysisRequest) (xs : List RunSubmission)
    → find_submission (again q o) xs ≡ find_submission q xs
unfolding find_submission
find_submission-again q o [] = refl
find_submission-again q o (x ∷ xs) = rw (find_submission-again q o xs) refl

requested-again :
    (q o : AnalysisRequest) (active : Option ActiveRow)
    → requested (again q o) active ≡ requested q active
unfolding requested normalize_options
requested-again q o active = refl

pub find_run-adopt :
    (i : ℕ) (user : Option ℕ) (x : AdmittedRun) (xs : List AdmittedRun)
    → find_run i xs ≡ some x
    → (y : AdmittedRun) × (find_run i (adopt_run i user xs) ≡ some y)
unfolding find_run adopt_run
find_run-adopt i user x [] h = absurd cc
find_run-adopt i user x (z ∷ zs) h = elim (Bool-cases (z.id == i)) [
  | inl y ↦ (record z { user_id = adopted user z.user_id }, rw y (rw y refl))
  | inr n ↦ (let rest = find_run-adopt i user x zs (rw n at h) in (rest.0, rw n (rw n rest.1)))
]

length-adopt :
    (i : ℕ) (user : Option ℕ) (xs : List AdmittedRun) → length (adopt_run i user xs) ≡ length xs
unfolding adopt_run
length-adopt i user [] = refl
length-adopt i user (x ∷ xs) = omega (arith, length-adopt i user xs)

-- A request whose content, actor and key the rows know.
pub again-Known :
    (q o : AnalysisRequest) (db : AdmissionDb) (sets : SortedSets) (i : ℕ)
    → (k : Known q db i)
    → create_analysis (again q o) db sets ≡ record {
      reply = ok i;
      db = record db { runs = adopt_run i o.user_id db.runs };
      sets = sets;
    }
unfolding create_analysis decide carry_out replay_found
again-Known q o db sets i k =
    rw
      (
        requested-again q o db.active,
        k.asked,
        find_submission-again q o db.submissions,
        k.found,
        k.same,
        k.its_run,
        k.has_run,
      )
      refl
