-- ===== src/Prelude/Rows.antt =====
-- Laws of the lists of rows: what an UPDATE, an INSERT or a DELETE leaves as it was, predicates on
-- all rows, and membership.
use mathlib.Core.Path.{◌≡◌, refl, ap, sym, ◌∙◌, subst}
use mathlib.Core.Option.{some, none}
use mathlib.Core.Bool.{Bool, true, false}
use mathlib.Core.Logic.{inl, inr}
use mathlib.Core.List.{List, [], ◌∷◌, ◌++◌, map, Memᴰ}
use native.Mathlib.Omega.{arith}
use netriun_nexus.Prelude.Tests.{Bool-cases, if◌then◌else◌, ||_inl, ||_inr}
use netriun_nexus.Prelude.Lists.{any, find, keep, change, drop_where, join, All}

module _ {ℓ} {A : Type ℓ} (p : A → Bool) where
  -- Rows that a test does not see may be added, changed among themselves, or deleted.
  pub keep-append_unseen : (xs : List A) (x : A) → p x ≡ false → keep p (xs ++ x ∷ []) ≡ keep p xs
  keep-append_unseen [] x h = rw h
  keep-append_unseen (y ∷ ys) x h = rw (keep-append_unseen ys x h)

  pub keep-change_unseen :
      (q : A → Bool) (f : A → A) (xs : List A)
      → ((x : A) → q x ≡ true → (p x ≡ false) × (p (f x) ≡ false))
      → keep p (change q f xs) ≡ keep p xs
  keep-change_unseen q f [] h = refl
  keep-change_unseen q f (x ∷ xs) h = elim (Bool-cases (q x)) [
    | inl e ↦ let (before, after) = h x e in rw (e, before, after) (keep-change_unseen q f xs h)
    | inr e ↦ rw (e, keep-change_unseen q f xs h)
  ]

  pub keep-drop_unseen :
      (q : A → Bool) (xs : List A)
      → ((x : A) → q x ≡ true → p x ≡ false)
      → keep p (drop_where q xs) ≡ keep p xs
  keep-drop_unseen q [] h = refl
  keep-drop_unseen q (x ∷ xs) h = elim (Bool-cases (q x)) [
    | inl e ↦ rw (e, h x e) (keep-drop_unseen q xs h)
    | inr e ↦ rw (e, keep-drop_unseen q xs h)
  ]

  pub keep-append : (xs ys : List A) → keep p (xs ++ ys) ≡ keep p xs ++ keep p ys
  keep-append [] ys = refl
  keep-append (x ∷ xs) ys = elim (Bool-cases (p x)) [
    | inl e ↦ rw (e, keep-append xs ys)
    | inr e ↦ rw (e, keep-append xs ys)
  ]

  pub keep-All : (xs : List A) → All (λ x. p x ≡ true) xs → keep p xs ≡ xs
  keep-All [] h = refl
  keep-All (x ∷ xs) (e, h) = rw (e, keep-All xs h)

  pub keep_none : (xs : List A) → All (λ x. p x ≡ false) xs → keep p xs ≡ []
  keep_none [] h = refl
  keep_none (x ∷ xs) (e, h) = rw e (keep_none xs h)

  pub drop-All : (xs : List A) → All (λ x. p x ≡ true) xs → drop_where p xs ≡ []
  drop-All [] h = refl
  drop-All (x ∷ xs) (e, h) = rw e (drop-All xs h)

  pub keep-drop : (xs : List A) → keep p (drop_where p xs) ≡ []
  keep-drop [] = refl
  keep-drop (x ∷ xs) = ground (arith, keep-drop xs)

  pub drop_twice : (xs : List A) → drop_where p (drop_where p xs) ≡ drop_where p xs
  drop_twice [] = refl
  drop_twice (x ∷ xs) = ground (arith, drop_twice xs)

  pub find_passes : (xs : List A) (x : A) → find p xs ≡ some x → p x ≡ true
  find_passes [] x h = ground arith
  find_passes (y ∷ ys) x h = elim (Bool-cases (p y)) [
    | inl e ↦ let same : y ≡ x = ground arith in rw (sym (ap p same) ∙ e)
    | inr e ↦ find_passes ys x (ground arith)
  ]

  pub find-append_new :
      (xs : List A) (x : A) → any p xs ≡ false → p x ≡ true → find p (xs ++ x ∷ []) ≡ some x
  find-append_new [] x h e = rw e
  find-append_new (y ∷ ys) x h e = ground (arith, find-append_new ys x)

  pub mem_of_find : (xs : List A) (x : A) → find p xs ≡ some x → Memᴰ x xs
  mem_of_find [] x h = ground arith
  mem_of_find (y ∷ ys) x h = elim (Bool-cases (p y)) [
    | inl e ↦ let here : some y ≡ some x = rw e at h in Memᴰ.head (ground arith)
    | inr e ↦ Memᴰ.tail (mem_of_find ys x (rw e at h))
  ]

  pub find-append_found : (xs ys : List A) (x : A) → find p xs ≡ some x → find p (xs ++ ys) ≡ some x
  find-append_found [] ys x h = ground arith
  find-append_found (y ∷ xs) ys x h = ground (arith, find-append_found xs ys x)

  pub any-drop_self : (xs : List A) → any p (drop_where p xs) ≡ false
  any-drop_self [] = refl
  any-drop_self (x ∷ xs) = ground (arith, any-drop_self xs)

  pub find-none : (xs : List A) → any p xs ≡ false → find p xs ≡ none
  find-none [] h = refl
  find-none (x ∷ xs) h = ground (arith, find-none xs)

  pub any_of_find-none : (xs : List A) → find p xs ≡ none → any p xs ≡ false
  any_of_find-none [] h = refl
  any_of_find-none (x ∷ xs) h = ground (arith, any_of_find-none xs)

  pub any_of_find : (xs : List A) (x : A) → find p xs ≡ some x → any p xs ≡ true
  any_of_find [] x h = ground arith
  any_of_find (y ∷ ys) x h = ground (arith, any_of_find ys x)

  -- The first row that passes, where a change does not alter what passes.
  pub find-change :
      (f : A → A) (xs : List A) (x : A)
      → ((y : A) → p (f y) ≡ p y)
      → find p xs ≡ some x
      → find p (change p f xs) ≡ some (f x)
  find-change f [] x g h = ground arith
  find-change f (y ∷ ys) x g h = elim (Bool-cases (p y)) [
    | inl e ↦ let same : y ≡ x = ground arith in rw (e, g y, e, same)
    | inr e ↦ rw (e, e) (find-change f ys x g (ground arith))
  ]

  -- A row that passes goes on to pass, or becomes one that does.
  pub any-change :
      (p' q : A → Bool) (f : A → A) (xs : List A)
      → ((x : A) → p x ≡ true → p' (if q x then f x else x) ≡ true)
      → any p xs ≡ true
      → any p' (change q f xs) ≡ true
  any-change p' q f [] g h = ground arith
  any-change p' q f (x ∷ xs) g h = elim (Bool-cases (p x)) [
    | inl e ↦ ||_inl _ _ (g x e)
    | inr e ↦ ||_inr _ _ (any-change p' q f xs g (ground arith))
  ]

module _ {ℓ κ} {A : Type ℓ} (P : A → Type κ) where
  pub All-append : (xs ys : List A) → All P xs → All P ys → All P (xs ++ ys)
  All-append [] ys h k = k
  All-append (x ∷ xs) ys (p, h) k = (p, All-append xs ys h k)

  pub All-keep : (q : A → Bool) (xs : List A) → All P xs → All P (keep q xs)
  All-keep q [] h = tt
  All-keep q (x ∷ xs) (p, h) = elim (Bool-cases (q x)) [
    | inl e ↦ rw e (p, All-keep q xs h)
    | inr e ↦ rw e (All-keep q xs h)
  ]

  pub All-change :
      (q : A → Bool) (f : A → A) (xs : List A)
      → ((x : A) → q x ≡ true → P x → P (f x))
      → All P xs
      → All P (change q f xs)
  All-change q f [] g h = tt
  All-change q f (x ∷ xs) g (p, h) = elim (Bool-cases (q x)) [
    | inl e ↦ rw e (g x e p, All-change q f xs g h)
    | inr e ↦ rw e (p, All-change q f xs g h)
  ]

  pub All_of_mem : {x : A} (xs : List A) → Memᴰ x xs → All P xs → P x
  All_of_mem [] m h = elim m [ ]
  All_of_mem (y ∷ ys) (Memᴰ.head e) (p, h) = rw e p
  All_of_mem (y ∷ ys) (Memᴰ.tail m) (p, h) = All_of_mem ys m h

module _ {ℓ κ} {A : Type ℓ} (P Q : A → Type κ) where
  pub All-mono : (xs : List A) → ((x : A) → P x → Q x) → All P xs → All Q xs
  All-mono [] f h = tt
  All-mono (x ∷ xs) f (p, h) = (f x p, All-mono xs f h)

module _ {ℓ} {A : Type ℓ} where
  pub mem-append_left : {x : A} (xs ys : List A) → Memᴰ x xs → Memᴰ x (xs ++ ys)
  mem-append_left [] ys m = elim m [ ]
  mem-append_left (z ∷ xs) ys (Memᴰ.head e) = Memᴰ.head e
  mem-append_left (z ∷ xs) ys (Memᴰ.tail m) = Memᴰ.tail (mem-append_left xs ys m)

  pub mem-append_right : {x : A} (xs ys : List A) → Memᴰ x ys → Memᴰ x (xs ++ ys)
  mem-append_right [] ys m = m
  mem-append_right (z ∷ xs) ys m = Memᴰ.tail (mem-append_right xs ys m)

  pub mem_of_keep :
      {x : A} (p : A → Bool) (xs : List A) → Memᴰ x xs → p x ≡ true → Memᴰ x (keep p xs)
  mem_of_keep p [] m h = elim m [ ]
  mem_of_keep p (y ∷ ys) (Memᴰ.head e) h = rw (sym (ap p e) ∙ h) (Memᴰ.head e)
  mem_of_keep p (y ∷ ys) (Memᴰ.tail m) h = elim (Bool-cases (p y)) [
    | inl e ↦ rw e (Memᴰ.tail (mem_of_keep p ys m h))
    | inr e ↦ rw e (mem_of_keep p ys m h)
  ]

  -- The rows that a test keeps are rows that pass it.
  pub All-keep_test : (p : A → Bool) (xs : List A) → All (λ x. p x ≡ true) (keep p xs)
  All-keep_test p [] = tt
  All-keep_test p (x ∷ xs) = elim (Bool-cases (p x)) [
    | inl e ↦ rw e (e, All-keep_test p xs)
    | inr e ↦ rw e (All-keep_test p xs)
  ]

  pub All-members : (xs ys : List A) → ((x : A) → Memᴰ x xs → Memᴰ x ys) → All (λ x. Memᴰ x ys) xs
  All-members [] ys f = tt
  All-members (x ∷ xs) ys f = (f x (Memᴰ.head refl), All-members xs ys (λ y m. f y (Memᴰ.tail m)))

  pub All-both {κ} :
      (P Q : A → Type κ) (xs : List A) → All P xs → All Q xs → All (λ x. P x × Q x) xs
  All-both P Q [] h k = tt
  All-both P Q (x ∷ xs) (p, h) (q, k) = ((p, q), All-both P Q xs h k)

module _ {ℓ} {A B : Type ℓ} where
  pub mem_of_map : {x : A} (f : A → B) (xs : List A) → Memᴰ x xs → Memᴰ (f x) (map f xs)
  mem_of_map f [] m = elim m [ ]
  mem_of_map f (y ∷ ys) (Memᴰ.head e) = Memᴰ.head (ap f e)
  mem_of_map f (y ∷ ys) (Memᴰ.tail m) = Memᴰ.tail (mem_of_map f ys m)

  pub mem_of_join :
      {x : A} {y : B} (f : A → List B) (xs : List A) → Memᴰ x xs → Memᴰ y (f x) → Memᴰ y (join f xs)
  mem_of_join f [] m k = elim m [ ]
  mem_of_join {y} f (z ∷ xs) (Memᴰ.head e) k =
      mem-append_left (f z) (join f xs) (subst (λ w. Memᴰ y (f w)) e k)
  mem_of_join f (z ∷ xs) (Memᴰ.tail m) k = mem-append_right (f z) (join f xs) (mem_of_join f xs m k)

  pub All-map :
      (P : B → Type ℓ) (f : A → B) (xs : List A) → All (λ x. P (f x)) xs → All P (map f xs)
  All-map P f [] h = tt
  All-map P f (x ∷ xs) (p, h) = (p, All-map P f xs h)

  pub All-join :
      (P : B → Type ℓ) (f : A → List B) (xs : List A)
      → All (λ x. All P (f x)) xs
      → All P (join f xs)
  All-join P f [] h = tt
  All-join P f (x ∷ xs) (p, h) = All-append P (f x) (join f xs) p (All-join P f xs h)

module _ {A : Type 0} where
  -- Where the members of a selection and of a map come from.
  pub from_keep :
      {y : A} (p : A → Bool) (xs : List A) → Memᴰ y (keep p xs) → Memᴰ y xs × (p y ≡ true)
  from_keep p [] m = elim m [ ]
  from_keep {y} p (x ∷ xs) m = elim (Bool-cases (p x)) [
    | inr e ↦ let (n, h) = from_keep p xs (rw e at m) in (Memᴰ.tail n, h)
    | inl e ↦ first p x xs e (from_keep p xs) (rw e at m)
  ]
    where
      first :
          (p : A → Bool) (x : A) (xs : List A)
          → p x ≡ true
          → (Memᴰ y (keep p xs) → Memᴰ y xs × (p y ≡ true))
          → Memᴰ y (x ∷ keep p xs)
          → Memᴰ y (x ∷ xs) × (p y ≡ true)
      first p x xs e rest (Memᴰ.head k) = (Memᴰ.head k, ap p k ∙ e)
      first p x xs e rest (Memᴰ.tail n) = let (l, h) = rest n in (Memᴰ.tail l, h)

module _ {A B : Type 0} where
  pub from_map :
      {y : B} (f : A → B) (xs : List A) → Memᴰ y (map f xs) → (x : A) × Memᴰ x xs × (y ≡ f x)
  from_map f [] m = elim m [ ]
  from_map f (x ∷ xs) (Memᴰ.head e) = (x, Memᴰ.head refl, e)
  from_map f (x ∷ xs) (Memᴰ.tail m) = let (y, n, h) = from_map f xs m in (y, Memᴰ.tail n, h)
