-- ===== src/Policy/Merge.antt =====
-- Lists of account ids: ordered, free of repetitions, and with the members that they should have.
use netriun_nexus.Prelude.{
  ℕ, Bool, true, false, ◌≡◌, refl, ◌∙◌, List, [], ◌∷◌, ◌++◌, map, ◌||◌, arith, leb, ◌<◌, ◌==◌, any,
  keep, contains, any-append, All, Bool-cases, inl, inr, eq_of_==, IsDistinct,
}
use netriun_nexus.Store.{Capability, CloudAccount, Db, User}
use netriun_nexus.Policy.{
  insert_id, order_ids, unique_ids, unique_in_sets, merge_account_ids, accessible_account_ids,
  account_id, listed_account,
}
use netriun_nexus.Policy.Agreement.{contains-order_ids}

abbrev pub IsAscending : List ℕ → Type 0
IsAscending [] = Unit
IsAscending (x ∷ xs) = All (λ y. x < y) xs × IsAscending xs

above-insert_id :
    (a x : ℕ) (xs : List ℕ) → a < x → All (λ y. a < y) xs → All (λ y. a < y) (insert_id x xs)
unfolding insert_id
above-insert_id a x [] p h = (p, tt)
above-insert_id a x (y ∷ ys) p (q, h) = ground (arith, above-insert_id a x ys p h)

All-below : (a b : ℕ) (xs : List ℕ) → a < b → All (λ y. b < y) xs → All (λ y. a < y) xs
All-below a b [] p h = tt
All-below a b (x ∷ xs) p (q, h) = (omega arith, All-below a b xs p h)

insert_id-IsAscending :
    (x : ℕ) (xs : List ℕ) → contains xs x ≡ false → IsAscending xs → IsAscending (insert_id x xs)
unfolding insert_id
insert_id-IsAscending x [] n h = (tt, tt)
insert_id-IsAscending x (y ∷ ys) n (q, h) = elim (Bool-cases (leb x y)) [
  | inl e ↦ let p : x < y = ground arith in rw e (((p, All-below x y ys p q)), (q, h))
  | inr e ↦
      rw e (above-insert_id y x ys (ground arith) q, insert_id-IsAscending x ys (ground arith) h)
]

order_ids-IsAscending : (xs : List ℕ) → IsDistinct xs → IsAscending (order_ids xs)
unfolding order_ids
order_ids-IsAscending [] h = tt
order_ids-IsAscending (x ∷ xs) (n, h) =
    insert_id-IsAscending x (order_ids xs) (contains-order_ids x xs ∙ n)
      (order_ids-IsAscending xs h)

IsDistinct-concat :
    (xs : List ℕ) (x : ℕ) → contains xs x ≡ false → IsDistinct xs → IsDistinct (xs ++ x ∷ [])
IsDistinct-concat [] x n h = (refl, tt)
IsDistinct-concat (y ∷ ys) x n (q, h) =
    (any-append (λ z. z == y) ys (x ∷ []) ∙ ground arith, IsDistinct-concat ys x (ground arith) h)

unique_ids-IsDistinct : (seen ids : List ℕ) → IsDistinct seen → IsDistinct (unique_ids seen ids)
unfolding unique_ids
unique_ids-IsDistinct seen [] h = h
unique_ids-IsDistinct seen (id ∷ ids) h = elim (Bool-cases (contains seen id)) [
  | inl e ↦ rw e (unique_ids-IsDistinct seen ids h)
  | inr e ↦ rw e (unique_ids-IsDistinct (seen ++ id ∷ []) ids (IsDistinct-concat seen id e h))
]

unique_in_sets-IsDistinct :
    (seen : List ℕ) (sets : List (List ℕ)) → IsDistinct seen → IsDistinct (unique_in_sets seen sets)
unfolding unique_in_sets
unique_in_sets-IsDistinct seen [] h = h
unique_in_sets-IsDistinct seen (set ∷ sets) h =
    unique_in_sets-IsDistinct (unique_ids seen set) sets (unique_ids-IsDistinct seen set h)

contains_of_== :
    (a id : ℕ) (ids : List ℕ) → contains ids id ≡ true → (id == a) ≡ true → contains ids a ≡ true
contains_of_== a id ids h e = rw (eq_of_== id a e) at h

contains-unique_ids :
    (a : ℕ) (seen ids : List ℕ)
    → contains (unique_ids seen ids) a ≡ (contains seen a || contains ids a)
unfolding unique_ids
contains-unique_ids a seen [] = ground arith
contains-unique_ids a seen (id ∷ ids) = elim (Bool-cases (contains seen id)) [
  | inl e ↦ rw e (contains-unique_ids a seen ids ∙ ground (arith, contains_of_== a id seen e))
  | inr e ↦ rw e (
      contains-unique_ids a (seen ++ id ∷ []) ids
      ∙ rw (any-append (λ z. z == a) seen (id ∷ [])) (ground arith))
]

contains-unique_in_sets :
    (a : ℕ) (seen : List ℕ) (sets : List (List ℕ))
    → contains (unique_in_sets seen sets) a ≡ (contains seen a || any (λ s. contains s a) sets)
unfolding unique_in_sets
contains-unique_in_sets a seen [] = ground arith
contains-unique_in_sets a seen (set ∷ sets) =
    contains-unique_in_sets a (unique_ids seen set) sets
    ∙ rw (contains-unique_ids a seen set) (ground arith)

-- The merged list is strictly ascending, so it repeats nothing, and an id is in it exactly when it
-- is in one of the sets that are merged.
pub merge_account_ids_lem :
    (sets : List (List ℕ))
    → IsAscending (merge_account_ids sets)
      × ((id : ℕ) → contains (merge_account_ids sets) id ≡ any (λ set. contains set id) sets)
unfolding merge_account_ids
merge_account_ids_lem sets = (
  order_ids-IsAscending _ (unique_in_sets-IsDistinct [] sets tt),
  λ id. contains-order_ids id _ ∙ contains-unique_in_sets id [] sets,
)

contains-map-keep :
    (p : CloudAccount → Bool) (id : ℕ) (rows : List CloudAccount)
    → contains (map account_id rows) id ≡ false
    → contains (map account_id (keep p rows)) id ≡ false
contains-map-keep p id [] h = refl
contains-map-keep p id (a ∷ rows) h = ground (arith, contains-map-keep p id rows)

IsDistinct-keep :
    (p : CloudAccount → Bool) (rows : List CloudAccount)
    → IsDistinct (map account_id rows)
    → IsDistinct (map account_id (keep p rows))
IsDistinct-keep p [] h = tt
IsDistinct-keep p (a ∷ rows) (n, h) = elim (Bool-cases (p a)) [
  | inl e ↦ rw e (contains-map-keep p a.id rows n, IsDistinct-keep p rows h)
  | inr e ↦ rw e (IsDistinct-keep p rows h)
]

-- Where account ids are unique, the accessible accounts come in strictly ascending order.
pub accessible_account_ids-IsAscending :
    (db : Db) (u : User) (c : Capability)
    → IsDistinct (map account_id db.cloud_accounts)
    → IsAscending (accessible_account_ids db u c)
unfolding accessible_account_ids
accessible_account_ids-IsAscending db u c h =
    order_ids-IsAscending _ (IsDistinct-keep (listed_account db u c) db.cloud_accounts h)
