-- ===== src/Public/Rate/Undo.antt =====
-- backend/app/public/admission.py: a reservation that is refused or taken back leaves nothing that
-- counts.
use reviewlens_ai.Prelude.{
  ℕ, String, Bool, true, ◌&&◌, ◌≡◌, refl, ◌∙◌, List, [], ◌∷◌, ◌==◌, string_eq, nat_eq, All, arith,
  Bool-cases, inl, inr,
}
use reviewlens_ai.Public.Rate.{
  Entry, RateKey, rate_key_eq, hour_ip, day_ip, day_session, SortedSets, is_other, zrem, zadd,
  rate_keys, start_survey, add_all, zrem_all, RateLimits, RateReply, granted, refused, reserve_rate,
}
use reviewlens_ai.Public.Rate.Counts.{
  count, live, SameLive, count-filter, count-same, count-by_score,
}
use reviewlens_ai.Public.Rate.Ledger.{
  SameSets, survey-SameSets, add_all-SameSets, zrem_all-SameSets,
}
use reviewlens_ai.Public.Rate.Retry.{reserve_rate-cases}

abbrev pub IsOther : String → Entry → Type 0
IsOther token e = is_other token e ≡ true

-- The token is no member of any set.
abbrev pub Unused : String → SortedSets → Type 0
Unused token sets = (k : RateKey) → All (IsOther token) (sets k)

unused-count :
    (p : Entry → Bool) (token : String) (es : List Entry)
    → All (IsOther token) es
    → count p (zrem token es) ≡ count p es
unused-count p token [] h = refl
unused-count p token (e ∷ es) h = rw h.0 (ground (arith, unused-count p token es h.1))

undone :
    (window now at : ℕ) (token : String) (es : List Entry)
    → All (IsOther token) es
    → SameLive window now (zrem token (zadd at token es)) es
undone window now at token es h t le q =
    let p : Entry → Bool = live t window q in
    let hidden : Entry → Bool = λ e. p e && is_other token e in
    ground (
      arith,
      count-filter p (is_other token) (zadd at token es),
      count-by_score hidden (record { score = at; member = token }) (zrem token es),
      count-filter hidden (is_other token) es,
      count-same (λ e. hidden e && is_other token e) hidden es (λ e. ground arith),
      count-filter p (is_other token) es,
      (string_eq.equal_iff token token).1 refl,
      unused-count p token es h,
    )

add_all-undone :
    (now : ℕ) (ip : String) (session : ℕ) (token : String) (sets : SortedSets)
    → Unused token sets
    → SameSets now
        (zrem_all token (rate_keys ip session) (add_all now token (rate_keys ip session) sets))
        sets
unfolding add_all zrem_all
add_all-undone now ip session token sets h (hour_ip a) = elim (Bool-cases (a == ip)) [
  | inr n ↦ rw n (λ t le q. refl)
  | inl y ↦
      rw ((string_eq.equal_iff a ip).0 y, (string_eq.equal_iff ip ip).1 refl)
        (undone 3600 now now token (sets (hour_ip ip)) (h (hour_ip ip)))
]
add_all-undone now ip session token sets h (day_ip a) = elim (Bool-cases (a == ip)) [
  | inr n ↦ rw n (λ t le q. refl)
  | inl y ↦
      rw ((string_eq.equal_iff a ip).0 y, (string_eq.equal_iff ip ip).1 refl)
        (undone 86400 now now token (sets (day_ip ip)) (h (day_ip ip)))
]
add_all-undone now ip session token sets h (day_session s) = elim (Bool-cases (s == session)) [
  | inr n ↦ rw n (λ t le q. refl)
  | inl y ↦
      rw ((nat_eq.equal_iff s session).0 y, (nat_eq.equal_iff session session).1 refl)
        (undone 86400 now now token (sets (day_session session)) (h (day_session session)))
]

-- The sets once a reservation that was granted is taken back.
abbrev pub settled : String → List RateKey → RateReply × SortedSets → SortedSets
settled token ks (refused at blocked, sets) = sets
settled token ks (granted, sets) = zrem_all token ks sets

pub reserve_rate-undone :
    (l : RateLimits) (now : ℕ) (ip : String) (session : ℕ) (token : String) (sets : SortedSets)
    → Unused token sets
    → SameSets now
        (settled token (rate_keys ip session) (reserve_rate l now ip session token sets))
        sets
reserve_rate-undone l now ip session token sets h =
    let ks = rate_keys ip session in
    let same = survey-SameSets l now ks (start_survey sets) sets (λ k t le q. refl) in
    elim (reserve_rate-cases l now ip session token sets) [
      | inr r ↦ rw r same
      | inl g ↦ rw g (λ k t le q.
          zrem_all-SameSets now token ks _ _ (add_all-SameSets now now token ks _ _ same) k t le q
          ∙ add_all-undone now ip session token sets h k t le q)
    ]
