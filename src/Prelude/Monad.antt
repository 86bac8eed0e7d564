-- ===== src/Prelude/Monad.antt =====
-- Request handlers. A handler changes a state and either returns or answers with a problem, as
-- `problem(w, status, message)` followed by `return` does; the changes made before stay.
use Prim.Native.Nat.{ℕ}
use Prim.Native.String.{String}
use mathlib.Core.Bool.{Bool, true, false}
use mathlib.Core.Option.{Option, none, some}

pub data Result {ℓ} (A : Type ℓ) : Type ℓ where
  ok : A → Result A
  problem : (status : ℕ) (message : String) → Result A

abbrev pub Handler {ℓ} : Type ℓ → Type ℓ → Type ℓ
Handler S A = S → Result A × S

module _ {ℓ} {S A : Type ℓ} where
  abbrev pub pure : A → Handler S A
  pure a s = (ok a, s)

  abbrev pub fail : ℕ → String → Handler S A
  fail status message s = (problem status message, s)

  abbrev pub gets : (S → A) → Handler S A
  gets f s = (ok (f s), s)

  -- `defer tx.Rollback`: what the transaction wrote is undone unless it ends without a problem.
  abbrev rollback_to : S → Result A × S → Result A × S
  rollback_to start (ok a, s) = (ok a, s)
  rollback_to start (problem c m, s) = (problem c m, start)

  abbrev pub transaction : Handler S A → Handler S A
  transaction body s = rollback_to s (body s)

abbrev pub modify {ℓ} : {S : Type ℓ} → (S → S) → S → Result (Unit {0}) × S
modify f s = (ok tt, f s)

module _ {ℓ κ} {S : Type ℓ} {A B : Type κ} where
  abbrev resume : Result A × S → (A → S → Result B × S) → Result B × S
  resume (ok a, s) k = k a s
  resume (problem c m, s) k = (problem c m, s)

  infixl 5 ◌>>=◌ ◌>>◌
  abbrev pub ◌>>=◌ : (S → Result A × S) → (A → S → Result B × S) → S → Result B × S
  ◌>>=◌ m k s = resume (m s) k

  abbrev pub ◌>>◌ : (S → Result A × S) → (S → Result B × S) → S → Result B × S
  ◌>>◌ m k s = resume (m s) (λ _. k)

-- `if !test { problem(...); return }`.
abbrev pub require {ℓ} : {S : Type ℓ} → Bool → ℕ → String → S → Result (Unit {0}) × S
require true status message s = (ok tt, s)
require false status message s = (problem status message, s)

-- A row that must be there, with the answer of `dbError` to pgx.ErrNoRows.
abbrev pub row_or {ℓ κ} : {S : Type ℓ} {A : Type κ} → Option A → ℕ → String → S → Result A × S
row_or (some a) status message s = (ok a, s)
row_or none status message s = (problem status message, s)
