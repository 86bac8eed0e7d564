-- ===== src/Prelude/Invariants.antt =====
-- Invariants of handlers: what holds of the state before holds after, whatever the handler answers.
-- One rule for each way to build a handler.
use mathlib.Core.Bool.{Bool, true, false}
use mathlib.Core.Option.{Option, none, some}
use Prim.Native.Nat.{ℕ}
use Prim.Native.String.{String}
use netriun_nexus.Prelude.Tests.{if◌then◌else◌}
use netriun_nexus.Prelude.Monad.{
  Result, ok, problem, pure, fail, require, row_or, transaction, ◌>>=◌, ◌>>◌,
}

pub record Keeps {ℓ} {S A : Type ℓ} (P : S → Type ℓ) (m : S → Result A × S) : Type ℓ where
  pub after : (s : S) → P s → P (m s).1

module _ {ℓ} {S A : Type ℓ} {P : S → Type ℓ} where
  pub Keeps-pure : (a : A) → Keeps P (pure a)
  Keeps-pure a = record { after = λ s h. h }

  pub Keeps-fail : (status : ℕ) (message : String) → Keeps P (fail {A = A} status message)
  Keeps-fail status message = record { after = λ s h. h }

  pub Keeps-row_or :
      (o : Option A) (status : ℕ) (message : String) → Keeps P (row_or o status message)
  Keeps-row_or none status message = record { after = λ s h. h }
  Keeps-row_or (some a) status message = record { after = λ s h. h }

  pub Keeps-if :
      (b : Bool) (m n : S → Result A × S) → Keeps P m → Keeps P n → Keeps P (if b then m else n)
  Keeps-if true m n km kn = km
  Keeps-if false m n km kn = kn

  pub Keeps-option :
      {B : Type ℓ} (o : Option B) (m : S → Result A × S) (k : B → S → Result A × S)
      → Keeps P m
      → ((b : B) → Keeps P (k b))
      → Keeps {A = A} P (elim o [ none ↦ m | some b ↦ k b ])
  Keeps-option none m k km kk = km
  Keeps-option (some b) m k km kk = kk b

  pub Keeps-transaction : (m : S → Result A × S) → Keeps P m → Keeps P (transaction m)
  Keeps-transaction m km = record { after = λ s h. rolled s h (m s) (km.after s h) }
    where
      rolled : (s : S) → P s → (r : Result A × S) → P r.1 → P (transaction (λ _. r) s).1
      rolled s h (ok a, s') k = k
      rolled s h (problem c t, s') k = h

module _ {ℓ} {S A B : Type ℓ} {P : S → Type ℓ} where
  pub Keeps-bind :
      (m : S → Result A × S) (k : A → S → Result B × S)
      → Keeps P m
      → ((a : A) → Keeps P (k a))
      → Keeps P (m >>= k)
  Keeps-bind m k km kk = record { after = λ s h. resumed (m s) (km.after s h) }
    where
      resumed : (r : Result A × S) → P r.1 → P (((λ (_ : S). r) >>= k) r.1).1
      resumed (ok a, s) h = (kk a).after s h
      resumed (problem c t, s) h = h

  pub Keeps-then :
      (m : S → Result A × S) (n : S → Result B × S) → Keeps P m → Keeps P n → Keeps P (m >> n)
  Keeps-then m n km kn = Keeps-bind m (λ _. n) km (λ _. kn)

module _ {S : Type 0} {P : S → Type 0} where
  pub Keeps-require :
      (b : Bool) (status : ℕ) (message : String) → Keeps P (require b status message)
  Keeps-require true status message = record { after = λ s h. h }
  Keeps-require false status message = record { after = λ s h. h }

pub ruleset keeps_rules = (
  Keeps-pure, Keeps-fail, Keeps-row_or, Keeps-if, Keeps-option, Keeps-transaction, Keeps-bind,
  Keeps-then, Keeps-require,
)

-- What a handler establishes when it returns; nothing is said of the state that a problem leaves.
abbrev pub OnOk {ℓ} : {S A : Type ℓ} → (S → Type ℓ) → Result A × S → Type ℓ
OnOk Q (ok a, s) = Q s
OnOk Q (problem c t, s) = Unit

pub record Leads {ℓ} {S A : Type ℓ} (P Q : S → Type ℓ) (m : S → Result A × S) : Type ℓ where
  pub after : (s : S) → P s → OnOk Q (m s)

module _ {ℓ} {S A : Type ℓ} where
  returned : (P : S → Type ℓ) (r : Result A × S) → P r.1 → OnOk P r
  returned P (ok a, s) h = h
  returned P (problem c t, s) h = tt

  pub Leads-Keeps : {P : S → Type ℓ} (m : S → Result A × S) → Keeps P m → Leads P P m
  Leads-Keeps {P} m k = record { after = λ s h. returned P (m s) (k.after s h) }

module _ {ℓ} {S A : Type ℓ} {P Q : S → Type ℓ} where
  -- A transaction leaves either the state that it began in or one that its body leads to.
  pub transaction-Leads :
      (T : S → Type ℓ) (m : S → Result A × S)
      → Leads P Q m
      → ((s : S) → P s → T s)
      → ((s : S) → Q s → T s)
      → (s : S) → P s
      → T (transaction m s).1
  transaction-Leads T m k before after s h = closed (m s) (k.after s h)
    where
      closed : (r : Result A × S) → OnOk Q r → T (transaction (λ _. r) s).1
      closed (ok a, s') q = after s' q
      closed (problem c t, s') q = before s h

module _ {ℓ} {S A B : Type ℓ} {P R Q : S → Type ℓ} where
  pub Leads-bind :
      (m : S → Result A × S) (k : A → S → Result B × S)
      → Leads P R m
      → ((a : A) → Leads R Q (k a))
      → Leads P Q (m >>= k)
  Leads-bind m k lm lk = record { after = λ s h. resumed (m s) (lm.after s h) }
    where
      resumed : (r : Result A × S) → OnOk R r → OnOk Q (((λ (_ : S). r) >>= k) r.1)
      resumed (ok a, s) h = (lk a).after s h
      resumed (problem c t, s) h = tt

  pub Leads-then :
      (m : S → Result A × S) (n : S → Result B × S) → Leads P R m → Leads R Q n → Leads P Q (m >> n)
  Leads-then m n lm ln = Leads-bind m (λ _. n) lm (λ _. ln)
