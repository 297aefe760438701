-- ===== src/Base/Tx.antt =====
-- A database transaction (backend/pkg/database/tx_context.go): a computation on the tables that
-- either commits its final state or, on an error, leaves the state as it was.
use mathlib.Core.Bool.{Bool, true, false}

pub data Result (E A : Type 0) : Type 0 where
  ok : A → Result E A
  err : E → Result E A

abbrev pub Tx : Type 0 → Type 0 → Type 0 → Type 0
Tx S E A = S → Result E (A × S)

module _ {S E A : Type 0} where
  abbrev pub pure : A → Tx S E A
  pure a s = ok (a, s)

  abbrev pub throw : E → Tx S E A
  throw e s = err e

  abbrev pub gets : (S → A) → Tx S E A
  gets f s = ok (f s, s)

  -- `database.TxRunner.RunTx`: commit on success, roll back on an error.
  abbrev pub commit_or_roll_back : S → Result E (A × S) → Result E A × S
  commit_or_roll_back s (ok (a, s')) = (ok a, s')
  commit_or_roll_back s (err e) = (err e, s)

  abbrev pub run_tx : Tx S E A → S → Result E A × S
  run_tx m s = commit_or_roll_back s (m s)

infixl 5 ◌>>=◌ ◌>>◌
abbrev pub ◌>>=◌ : {S E A B : Type 0} → Tx S E A → (A → Tx S E B) → Tx S E B
◌>>=◌ m f s = elim (m s) [ ok (a, s') ↦ f a s' | err e ↦ err e ]

abbrev pub ◌>>◌ : {S E A B : Type 0} → Tx S E A → Tx S E B → Tx S E B
m >> k = m >>= λ _. k

module _ {S E : Type 0} where
  abbrev pub modify : (S → S) → Tx S E (Unit {0})
  modify f s = ok (tt, f s)

  abbrev pub guard : Bool → E → Tx S E (Unit {0})
  guard true e s = ok (tt, s)
  guard false e s = err e
