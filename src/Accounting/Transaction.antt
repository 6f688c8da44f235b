-- ===== src/Accounting/Transaction.antt =====
-- backend/app/db/session.py: `session_scope` commits when its body returns, and rolls back and
-- raises again when it raises. A body has its writes beside its result.
use reviewlens_ai.Prelude.{Bool, true, false}
use reviewlens_ai.Runtime.Result.{Exception, Result, ok, raise}

abbrev pub Tx : Type 0 → Type 0 → Type 0
Tx S A = S → Result A × S

module _ {S A : Type 0} where
  abbrev pub pure : A → Tx S A
  pure a s = (ok a, s)

  abbrev pub throw : Exception → Tx S A
  throw e s = (raise e, s)

  abbrev pub lift : Result A → Tx S A
  lift r s = (r, s)

  abbrev pub gets : (S → A) → Tx S A
  gets f s = (ok (f s), s)

  abbrev commit_or_roll_back : S → Result A × S → Result A × S
  commit_or_roll_back before (ok a, after) = (ok a, after)
  commit_or_roll_back before (raise e, after) = (raise e, before)

  unfoldable pub session_scope : Tx S A → Tx S A
  session_scope body s = commit_or_roll_back s (body s)

abbrev pub modify : {S : Type 0} → (S → S) → Tx S (Unit {0})
modify f s = (ok tt, f s)

abbrev pub check : {S : Type 0} → Bool → Exception → Tx S (Unit {0})
check true e s = (ok tt, s)
check false e s = (raise e, s)

module _ {S A B : Type 0} where
  abbrev continue : (A → Tx S B) → Result A × S → Result B × S
  continue f (ok a, s) = f a s
  continue f (raise e, s) = (raise e, s)

  infixl 5 ◌>>=◌
  abbrev pub ◌>>=◌ : Tx S A → (A → Tx S B) → Tx S B
  ◌>>=◌ m f s = continue f (m s)

infixl 5 ◌>>◌
abbrev pub ◌>>◌ : {S B : Type 0} → Tx S (Unit {0}) → Tx S B → Tx S B
m >> k = m >>= λ _. k
