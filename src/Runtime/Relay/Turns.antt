-- ===== src/Runtime/Relay/Turns.antt =====
-- backend/app/runtime/outbox.py: the ways in which a turn of `relay_runtime_outbox` ends, and what
-- every turn keeps.
use reviewlens_ai.Prelude.{ℕ, true, ◌≡◌, inl, inr, some, List, [], ◌∷◌, Bool-cases, Option-cases}
use reviewlens_ai.Runtime.Result.{Exception, Result, ok, raise}
use reviewlens_ai.Runtime.State.{OutboxKey, RuntimeOutbox, RunDb}
use reviewlens_ai.Runtime.Ends.{either}
use reviewlens_ai.Runtime.Redis.{Redis}
use reviewlens_ai.Runtime.Relay.{
  Turn, World, Outcome, settle_turn, publish_outbox_item, claim_item, relay_item,
  relay_runtime_outbox,
}
use reviewlens_ai.Runtime.Relay.Rows.{is_processing, first_due, find_item, put_item, settle_item}
use reviewlens_ai.Runtime.Relay.Publications.{Publication, publish_outbox_item-Publication}

pub settle_item-cases :
    (P : RunDb → Type 0) (f : RuntimeOutbox → RuntimeOutbox) (k : OutboxKey) (s : RunDb)
    → P s
    → ((o : RuntimeOutbox)
        → find_item k s.outbox ≡ some o
        → is_processing o.status ≡ true
        → P (record s { outbox = put_item (f o) s.outbox }))
    → P (settle_item f k s)
unfolding settle_item
settle_item-cases P f k s p q = elim (Option-cases (find_item k s.outbox)) [
  | inl e ↦ rw (settle_item, e) p
  | inr (o, e) ↦
      rw (settle_item, e)
        (elim (Bool-cases (is_processing o.status)) [ inl y ↦ rw y (q o e y) | inr n ↦ rw n p ])
]

module _ (r : Redis) (P : World r → Type 0) (lease_seconds : ℕ) where
  -- A turn ends with the publication where the relay dies, or with the settlement of what came of it.
  pub relay_item-cases :
      (turn : Turn) (o : RuntimeOutbox) (w : World r)
      → ((w' : World r) (m : Result (Unit {0}))
          → Publication r o.idempotency_key (claim_item r lease_seconds turn o w) (w', m)
          → P w')
      → ((w' : World r) (e : Exception)
          → Publication r o.idempotency_key (claim_item r lease_seconds turn o w) (w', raise e)
          → P (settle_turn r turn o.idempotency_key (w', raise e)))
      → ((w' : World r)
          → Publication r o.idempotency_key (claim_item r lease_seconds turn o w) (w', ok tt)
          → P (settle_turn r turn o.idempotency_key (w', ok tt)))
      → P (relay_item r lease_seconds turn o w)
  unfolding relay_item
  relay_item-cases turn o w died failed published =
      either P turn.survives _ _
        (go (publish_outbox_item r turn o.idempotency_key claimed)
          (publish_outbox_item-Publication r turn o.idempotency_key claimed))
        (died _ _ (publish_outbox_item-Publication r turn o.idempotency_key claimed))
    where
      claimed : World r
      claimed = claim_item r lease_seconds turn o w

      go :
          (m : Outcome r)
          → Publication r o.idempotency_key claimed m
          → P (settle_turn r turn o.idempotency_key m)
      go (w', ok u) h = published w' h
      go (w', raise e) h = failed w' e h

  pub relay-keeps :
      ((turn : Turn) (o : RuntimeOutbox) (w : World r)
        → first_due turn.claimed_at w.db.outbox ≡ some o
        → P w
        → P (relay_item r lease_seconds turn o w))
      → (turns : List Turn) (w : World r) → P w
      → P (relay_runtime_outbox r lease_seconds turns w)
  unfolding relay_runtime_outbox
  relay-keeps step [] w p = p
  relay-keeps step (turn ∷ turns) w p =
      elim (Option-cases (first_due turn.claimed_at w.db.outbox)) [
        | inl e ↦ rw (relay_runtime_outbox, e) p
        | inr (o, e) ↦
            rw (relay_runtime_outbox, e)
              (relay-keeps step turns (relay_item r lease_seconds turn o w) (step turn o w e p))
      ]
