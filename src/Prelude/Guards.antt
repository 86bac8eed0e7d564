-- ===== src/Prelude/Guards.antt =====
-- What a handler does from one state on, where a guard or a row that it read is known to the rest.
use mathlib.Core.Path.{◌≡◌, refl, sym, subst}
use mathlib.Core.Bool.{Bool, true, false}
use mathlib.Core.Option.{Option, none, some}
use Prim.Native.Nat.{ℕ}
use Prim.Native.String.{String}
use native.Mathlib.Omega.{arith}
use netriun_nexus.Prelude.Monad.{Result, ok, problem, require, row_or, transaction, ◌>>=◌, ◌>>◌}
use netriun_nexus.Prelude.Invariants.{Keeps}

pub record Ends {ℓ} {S A : Type ℓ} (P : S → Type ℓ) (s : S) (m : S → Result A × S) : Type ℓ where
  pub after : P (m s).1

module _ {S A : Type 0} {P : S → Type 0} (s : S) (h : P s) where
  pub Ends-Keeps : (m : S → Result A × S) → Keeps P m → Ends P s m
  Ends-Keeps m k = record { after = k.after s h }

  pub Ends-require :
      (b : Bool) (status : ℕ) (message : String) (k : S → Result A × S)
      → (b ≡ true → Ends P s k)
      → Ends P s (require b status message >> k)
  Ends-require true status message k f = record { after = (f refl).after }
  Ends-require false status message k f = record { after = h }

  pub Ends-transaction : (m : S → Result A × S) → Ends P s m → Ends P s (transaction m)
  Ends-transaction m e = record { after = rolled (m s) e.after }
    where
      rolled : (r : Result A × S) → P r.1 → P (transaction (λ _. r) s).1
      rolled (ok a, s') k = k
      rolled (problem c t, s') k = h

module _ {S A B : Type 0} {P : S → Type 0} (s : S) (h : P s) where
  pub Ends-row_or :
      (o : Option A) (status : ℕ) (message : String) (k : A → S → Result B × S)
      → ((a : A) → o ≡ some a → Ends P s (k a))
      → Ends P s (row_or o status message >>= k)
  Ends-row_or (some a) status message k f = record { after = (f a refl).after }
  Ends-row_or none status message k f = record { after = h }

module _ {S A B : Type 0} {P : S → Type 0} (s : S) (h : P s) where
  -- A first part that only reads.
  pub Ends-read :
      (m : S → Result A × S) (k : A → S → Result B × S)
      → (m s).1 ≡ s
      → ((a : A) → (m s).0 ≡ ok a → Ends P s (k a))
      → Ends P s (m >>= k)
  Ends-read m k same f = record { after = resumed (m s) same f }
    where
      resumed :
          (r : Result A × S)
          → r.1 ≡ s
          → ((a : A) → r.0 ≡ ok a → Ends P s (k a))
          → P (((λ (_ : S). r) >>= k) s).1
      resumed (ok a, s') e g = subst (λ x. P (k a x).1) (sym e) (g a refl).after
      resumed (problem c t, s') e g = subst P (sym e) h

module _ {S A B : Type 0} {P : S → Type 0} where
  -- The rest of a handler whose first part keeps the invariant.
  pub Ends-bind :
      (s : S) (m : S → Result A × S) (k : A → S → Result B × S)
      → Ends P s m
      → ((a : A) → Keeps P (k a))
      → Ends P s (m >>= k)
  Ends-bind s m k e f = record { after = resumed (m s) e.after }
    where
      resumed : (r : Result A × S) → P r.1 → P (((λ (_ : S). r) >>= k) r.1).1
      resumed (ok a, s') h = (f a).after s' h
      resumed (problem c t, s') h = h

module _ {S A : Type 0} {P : S → Type 0} where
  pub Keeps-of_Ends : (m : S → Result A × S) → ((s : S) → P s → Ends P s m) → Keeps P m
  Keeps-of_Ends m f = record { after = λ s h. (f s h).after }

-- What a result says of the guard before it.
module _ {S B : Type 0} where
  pub require_passed :
      (b : Bool) (status : ℕ) (message : String) (k : S → Result B × S) (s : S) (r : B)
      → ((require b status message >> k) s).0 ≡ ok r
      → (b ≡ true) × ((k s).0 ≡ ok r)
  require_passed true status message k s r h = (refl, h)
  require_passed false status message k s r h = ground arith

-- What an answer without a problem says of the steps before it.
module _ {S A : Type 0} where
  pub transaction_ok :
      (m : S → Result A × S) (s : S) (a : A)
      → (transaction m s).0 ≡ ok a
      → ((m s).0 ≡ ok a) × ((transaction m s).1 ≡ (m s).1)
  transaction_ok m s a h = closed (m s) h
    where
      closed :
          (r : Result A × S)
          → (transaction (λ (_ : S). r) s).0 ≡ ok a
          → (r.0 ≡ ok a) × ((transaction (λ (_ : S). r) s).1 ≡ r.1)
      closed (ok b, s') h = (h, refl)
      closed (problem c t, s') h = ground arith

module _ {S A B : Type 0} where
  pub bind_ok :
      (m : S → Result A × S) (k : A → S → Result B × S) (s : S) (b : B)
      → ((m >>= k) s).0 ≡ ok b
      → (a : A) × ((m s).0 ≡ ok a) × ((k a (m s).1).0 ≡ ok b) × (((m >>= k) s).1 ≡ (k a (m s).1).1)
  bind_ok m k s b h = resumed (m s) h
    where
      resumed :
          (r : Result A × S)
          → (((λ (_ : S). r) >>= k) s).0 ≡ ok b
          → (a : A) × (r.0 ≡ ok a)
            × ((k a r.1).0 ≡ ok b)
            × ((((λ (_ : S). r) >>= k) s).1 ≡ (k a r.1).1)
      resumed (ok a, s') h = (a, refl, h, refl)
      resumed (problem c t, s') h = ground arith

module _ {S B : Type 0} where
  pub gate_ok :
      (b : Bool) (status : ℕ) (message : String) (k : S → Result B × S) (s : S) (r : B)
      → ((require b status message >> k) s).0 ≡ ok r
      → (b ≡ true) × ((k s).0 ≡ ok r) × (((require b status message >> k) s).1 ≡ (k s).1)
  gate_ok true status message k s r h = (refl, h, refl)
  gate_ok false status message k s r h = ground arith
