-- ===== src/Runtime/Redis.antt =====
-- The commands that backend/app/runtime/outbox.py sends to a redis stream, and what their
-- documentation promises. A stream may lose entries at any time (MAXLEN, EXPIRE).
use reviewlens_ai.Prelude.{ℕ, ◌≡◌, ◌⊎◌, Option, some, List, All}
use reviewlens_ai.Runtime.State.{ProgressEvent}

-- The fields of an entry are those of the event: `json.loads` undoes `json.dumps`.
pub record Redis : Type 1 where
  pub Stream : Type 0
  -- `xadd(key, fields, id=f"{n}-0", maxlen=...)`, `none` where it raises ResponseError, and `expire`.
  pub xadd : ℕ → ProgressEvent → Stream → Option Stream
  pub expire : Stream → Stream
  -- `xrange(key, min=id, max=id, count=1)`, and `xrange(key, min="(n-0", max="+", count=limit)`,
  -- which gives `none` where redis cannot be reached.
  pub entry_at : ℕ → Stream → Option ProgressEvent
  pub entries_after : ℕ → Option ℕ → Stream → Option (List ProgressEvent)
  -- What the stream holds: only what was added.
  pub Has : Stream → ProgressEvent → Type 0
  pub xadd-Has :
      (n : ℕ) (e f : ProgressEvent) (s s' : Stream)
      → xadd n e s ≡ some s'
      → Has s' f
      → (f ≡ e) ⊎ Has s f
  pub expire-Has : (s : Stream) (f : ProgressEvent) → Has (expire s) f → Has s f
  pub entries_after-Has :
      (n : ℕ) (c : Option ℕ) (s : Stream) (es : List ProgressEvent)
      → entries_after n c s ≡ some es
      → All (Has s) es
