-- ===== src/Prelude/Unique.antt =====
-- Keys: tests that at most one row of a table passes, and what inserting, deleting and changing rows
-- makes of them.
use Prim.Native.Nat.{ℕ, ◌<◌}
use mathlib.Core.Path.{◌≡◌, refl, sym, ◌∙◌}
use mathlib.Core.Option.{some}
use mathlib.Core.Bool.{Bool, true, false, ◌||◌}
use mathlib.Core.Logic.{inl, inr}
use mathlib.Core.List.{List, [], ◌∷◌, ◌++◌}
use native.Mathlib.Omega.{arith}
use netriun_nexus.Prelude.Tests.{false_of_not, ◌==◌, Bool-cases, ||_inl, ||_inr}
use netriun_nexus.Prelude.Lists.{any, any_mono, find, keep, drop_where, change, All}

module _ {A : Type 0} where
  -- The test that two rows may not both pass.
  abbrev pub AtMostOne : (A → Bool) → List A → Type 0
  AtMostOne p [] = Unit
  AtMostOne p (x ∷ xs) = (p x ≡ true → any p xs ≡ false) × AtMostOne p xs

  -- An id that is past all ids is new.
  pub any_new :
      (id : A → ℕ) (next : ℕ) (xs : List A)
      → All (λ x. id x < next) xs
      → any (λ x. id x == next) xs ≡ false
  any_new id next [] h = refl
  any_new id next (x ∷ xs) (p, h) = ground (arith, any_new id next xs h)

  pub any-snoc : (p : A → Bool) (xs : List A) (y : A) → any p (xs ++ y ∷ []) ≡ (any p xs || p y)
  any-snoc p [] y = ground arith
  any-snoc p (x ∷ xs) y = ground (arith, any-snoc p xs y)

  pub AtMostOne-snoc :
      (p : A → Bool) (xs : List A) (y : A)
      → (p y ≡ true → any p xs ≡ false)
      → AtMostOne p xs
      → AtMostOne p (xs ++ y ∷ [])
  AtMostOne-snoc p [] y f u = (λ _. refl, tt)
  AtMostOne-snoc p (x ∷ xs) y f (g, u) = (
    λ e.
        any-snoc p xs y
        ∙ elim (Bool-cases (p y)) [ inl q ↦ ground (arith, f q) | inr q ↦ ground (arith, g e) ],
    AtMostOne-snoc p xs y (λ q. ground (arith, f q)) u,
  )

  pub any-keep_le : (p q : A → Bool) (xs : List A) → any p xs ≡ false → any p (keep q xs) ≡ false
  any-keep_le p q [] h = refl
  any-keep_le p q (x ∷ xs) h = elim (Bool-cases (q x)) [
    | inl e ↦ rw e (ground (arith, any-keep_le p q xs (ground arith)))
    | inr e ↦ rw e (any-keep_le p q xs (ground arith))
  ]

  pub AtMostOne-keep : (p q : A → Bool) (xs : List A) → AtMostOne p xs → AtMostOne p (keep q xs)
  AtMostOne-keep p q [] u = tt
  AtMostOne-keep p q (x ∷ xs) (g, u) = elim (Bool-cases (q x)) [
    | inl e ↦ rw e (λ h. any-keep_le p q xs (g h), AtMostOne-keep p q xs u)
    | inr e ↦ rw e (AtMostOne-keep p q xs u)
  ]

  -- A change that the test does not see.
  pub any-change_same :
      (p q : A → Bool) (f : A → A) (xs : List A)
      → ((x : A) → p (f x) ≡ p x)
      → any p (change q f xs) ≡ any p xs
  any-change_same p q f [] h = refl
  any-change_same p q f (x ∷ xs) h = elim (Bool-cases (q x)) [
    | inl e ↦ rw (e, h x, any-change_same p q f xs h)
    | inr e ↦ rw (e, any-change_same p q f xs h)
  ]

  pub AtMostOne-change :
      (p q : A → Bool) (f : A → A) (xs : List A)
      → ((x : A) → p (f x) ≡ p x)
      → AtMostOne p xs
      → AtMostOne p (change q f xs)
  AtMostOne-change p q f [] h u = tt
  AtMostOne-change p q f (x ∷ xs) h (g, u) = elim (Bool-cases (q x)) [
    | inl e ↦
        rw e (λ k. any-change_same p q f xs h ∙ g (sym (h x) ∙ k), AtMostOne-change p q f xs h u)
    | inr e ↦ rw e (λ k. any-change_same p q f xs h ∙ g k, AtMostOne-change p q f xs h u)
  ]

  pub AtMostOne-mono :
      (p q : A → Bool) (xs : List A)
      → ((x : A) → q x ≡ true → p x ≡ true)
      → AtMostOne p xs
      → AtMostOne q xs
  AtMostOne-mono p q [] f u = tt
  AtMostOne-mono p q (x ∷ xs) f (g, u) =
      (λ h. false_of_not (λ k. any_mono q p xs f k) (g (f x h)), AtMostOne-mono p q xs f u)

  -- Rows that the one row of a key is not among stay when it is deleted.
  pub any-drop :
      (p q : A → Bool) (y : A) (xs : List A)
      → AtMostOne q xs
      → find q xs ≡ some y
      → p y ≡ false
      → any p xs ≡ true
      → any p (drop_where q xs) ≡ true
  any-drop p q y [] u e n h = ground arith
  any-drop p q y (x ∷ xs) (g, u) e n h = elim (Bool-cases (q x)) [
    | inl k ↦
        let same : x ≡ y = ground arith in
        let off : p x ≡ false = rw same n in rw k (any-keep_all xs (g k) (ground arith))
    | inr k ↦ elim (Bool-cases (p x)) [
      | inl m ↦ rw k (||_inl _ _ m)
      | inr m ↦ rw k (||_inr (p x) _ (any-drop p q y xs u (ground arith) n (ground arith)))
    ]
  ]
    where
      any-keep_all :
          (zs : List A) → any q zs ≡ false → any p zs ≡ true → any p (drop_where q zs) ≡ true
      any-keep_all [] m k = ground arith
      any-keep_all (z ∷ zs) m k =
          let off : q z ≡ false = ground arith in
          elim (Bool-cases (p z)) [
            | inl l ↦ rw off (||_inl _ _ l)
            | inr l ↦ rw off (||_inr (p z) _ (any-keep_all zs (ground arith) (ground arith)))
          ]
