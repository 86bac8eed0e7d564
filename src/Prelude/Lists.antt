-- ===== src/Prelude/Lists.antt =====
-- Lists searched and filtered by Boolean tests: the shape that the model gives to SQL queries and
-- to the loops over slices.
use Prim.Native.Nat.{ℕ, suc}
use mathlib.Core.Path.{◌≡◌, refl}
use mathlib.Core.Bool.{Bool, true, false, ◌&&◌, ◌||◌, not}
use mathlib.Core.Option.{Option, none, some}
use mathlib.Core.Logic.{inl, inr}
use mathlib.Core.List.{List, [], ◌∷◌, ◌++◌, Memᴰ}
use native.Mathlib.Omega.{arith}
use netriun_nexus.Prelude.Tests.{◌==◌, if◌then◌else◌, Bool-cases, ||_inl, ||_inr}

module _ {ℓ} {A : Type ℓ} where
  abbrev pub length : List A → ℕ
  length [] = 0
  length (x ∷ xs) = suc (length xs)

  -- EXISTS(SELECT … WHERE p).
  abbrev pub any : (A → Bool) → List A → Bool
  any p [] = false
  any p (x ∷ xs) = p x || any p xs

  abbrev pub all : (A → Bool) → List A → Bool
  all p [] = true
  all p (x ∷ xs) = p x && all p xs

  -- SELECT … WHERE p.
  abbrev pub keep : (A → Bool) → List A → List A
  keep p [] = []
  keep p (x ∷ xs) = let rest = keep p xs in if p x then x ∷ rest else rest

  -- The first row that passes, as QueryRow reads it.
  abbrev pub find : (A → Bool) → List A → Option A
  find p [] = none
  find p (x ∷ xs) = let rest = find p xs in if p x then some x else rest

  -- UPDATE … SET f WHERE p.
  abbrev pub change : (A → Bool) → (A → A) → List A → List A
  change p f [] = []
  change p f (x ∷ xs) = (if p x then f x else x) ∷ change p f xs

  -- DELETE … WHERE p.
  abbrev pub drop_where : (A → Bool) → List A → List A
  drop_where p xs = keep (λ x. not (p x)) xs

  abbrev pub count_where : (A → Bool) → List A → ℕ
  count_where p [] = 0
  count_where p (x ∷ xs) = if p x then suc (count_where p xs) else count_where p xs

  -- FROM … JOIN …: the rows that each row leads to.
  abbrev pub join {κ} : {B : Type κ} → (A → List B) → List A → List B
  join f [] = []
  join f (x ∷ xs) = f x ++ join f xs

  abbrev pub is_empty : List A → Bool
  is_empty [] = true
  is_empty (_ ∷ _) = false

abbrev pub contains : List ℕ → ℕ → Bool
contains xs a = any (λ x. x == a) xs

module _ {ℓ κ} {A : Type ℓ} (P : A → Type κ) where
  abbrev pub All : List A → Type κ
  All [] = Unit
  All (x ∷ xs) = P x × All xs

module _ {ℓ} {A : Type ℓ} (p : A → Bool) where
  pub any-append : (xs ys : List A) → any p (xs ++ ys) ≡ (any p xs || any p ys)
  any-append [] ys = refl
  any-append (x ∷ xs) ys = ground (arith, any-append xs ys)

  pub any_of_keep : (q : A → Bool) (xs : List A) → any p (keep q xs) ≡ any (λ x. q x && p x) xs
  any_of_keep q [] = refl
  any_of_keep q (x ∷ xs) = ground (arith, any_of_keep q xs)

  -- A test that implies another finds no more.
  pub any_mono :
      (q : A → Bool) (xs : List A)
      → ((x : A) → p x ≡ true → q x ≡ true)
      → any p xs ≡ true
      → any q xs ≡ true
  any_mono q (x ∷ xs) f h = elim (Bool-cases (p x)) [
    | inl e ↦ ||_inl _ _ (f x e)
    | inr e ↦ ||_inr (q x) _ (any_mono q xs f (ground arith))
  ]
  any_mono q [] f h = ground arith

  pub any_congr : (q : A → Bool) (xs : List A) → ((x : A) → p x ≡ q x) → any p xs ≡ any q xs
  any_congr q [] f = refl
  any_congr q (x ∷ xs) f = ground (arith, f x, any_congr q xs f)

  pub any_witness : (xs : List A) → any p xs ≡ true → (x : A) × (p x ≡ true)
  any_witness [] h = ground arith
  any_witness (x ∷ xs) h = elim (Bool-cases (p x)) [
    | inl e ↦ (x, e)
    | inr e ↦ any_witness xs (ground arith)
  ]

  -- `any` searches exactly the members.
  pub any_mem : (xs : List A) → any p xs ≡ true → (x : A) × Memᴰ x xs × (p x ≡ true)
  any_mem [] h = ground arith
  any_mem (x ∷ xs) h = elim (Bool-cases (p x)) [
    | inl e ↦ (x, Memᴰ.head refl, e)
    | inr e ↦ let (y, m, q) = any_mem xs (ground arith) in (y, Memᴰ.tail m, q)
  ]

  pub any_of_mem : (xs : List A) {x : A} → Memᴰ x xs → p x ≡ true → any p xs ≡ true
  any_of_mem [] m h = elim m [ ]
  any_of_mem (y ∷ ys) {x} (Memᴰ.head e) h = ||_inl (p y) (any p ys) (rw (← e) h)
  any_of_mem (y ∷ ys) (Memᴰ.tail m) h = ||_inr (p y) _ (any_of_mem ys m h)

  -- Rows that the test would refuse anyway may be left out.
  pub any-keep :
      (q : A → Bool) (xs : List A)
      → ((x : A) → p x ≡ true → q x ≡ true)
      → any p (keep q xs) ≡ any p xs
  any-keep q [] f = refl
  any-keep q (x ∷ xs) f = ground (arith, f x, any-keep q xs f)

  pub keep_congr : (q : A → Bool) (xs : List A) → ((x : A) → p x ≡ q x) → keep p xs ≡ keep q xs
  keep_congr q [] f = refl
  keep_congr q (x ∷ xs) f = rw (f x, keep_congr q xs f)

abbrev pub IsDistinct : List ℕ → Type 0
IsDistinct [] = Unit
IsDistinct (x ∷ xs) = (contains xs x ≡ false) × IsDistinct xs
