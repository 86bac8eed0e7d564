-- ===== src/Selection/Laws.antt =====
-- What a selection holds.
use netriun_nexus.Prelude.{
  ℕ, String, Bool, true, false, not, ◌≡◌, refl, sym, ap, ◌∙◌, subst, List, [], ◌∷◌, ◌++◌, ◌≤◌, ◌==◌,
  arith, any-append, contains, length, Bool-cases, inl, inr, All, All-append, IsDistinct, Result,
  ok, problem, str_eq, ltb, require, require_passed, ◌>>=◌, ◌>>◌, pure, eq_of_==,
}
use netriun_nexus.Store.{User, Db}
use netriun_nexus.Text.{TextOps}
use netriun_nexus.Request.{Parsed, positive, negative, malformed, query}
use netriun_nexus.Selection.{
  add_part, select, selection, requested_account_ids, raw_selection, parsed, provider_count, lifted,
}

distinct-snoc :
    (xs : List ℕ) (id : ℕ) → IsDistinct xs → contains xs id ≡ false → IsDistinct (xs ++ id ∷ [])
distinct-snoc [] id d h = (refl, tt)
distinct-snoc (x ∷ xs) id (fresh, d) h =
    (any-append (λ y. y == x) xs (id ∷ []) ∙ ground arith, distinct-snoc xs id d (ground arith))

-- A list without repetitions, all of it allowed and positive.
pub record Within (allowed ids : List ℕ) : Type 0 where
  pub allowed_all : All (λ id. contains allowed id ≡ true) ids
  pub positive_all : All (λ id. 1 ≤ id) ids
  pub distinct : IsDistinct ids

add_part-Within :
    (allowed selected : List ℕ) (part : Parsed) (more : List ℕ)
    → Within allowed selected
    → add_part allowed selected part ≡ ok more
    → Within allowed more
add_part-Within allowed selected (positive id) more w h = elim (Bool-cases (ltb id 1)) [
  | inl small ↦ ground arith
  | inr large ↦ elim (Bool-cases (contains allowed id)) [
    | inr out ↦ ground arith
    | inl may ↦ elim (Bool-cases (contains selected id)) [
      | inl old ↦ let same : selected ≡ more = ground arith in subst (Within allowed) same w
      | inr new ↦
          let same : selected ++ id ∷ [] ≡ more = ground arith in
          subst (Within allowed) same (record {
            allowed_all = All-append _ selected _ w.allowed_all (may, tt);
            positive_all = All-append _ selected _ w.positive_all (ground arith, tt);
            distinct = distinct-snoc selected id w.distinct new;
          })
    ]
  ]
]
add_part-Within allowed selected (negative id) more w h = ground arith
add_part-Within allowed selected malformed more w h = ground arith

select-Within :
    (allowed : List ℕ) (parts : List Parsed) (selected ids : List ℕ)
    → Within allowed selected
    → select allowed parts selected ≡ ok ids
    → Within allowed ids
unfolding select
select-Within allowed [] selected ids w h =
    let same : selected ≡ ids = ground arith in subst (Within allowed) same w
select-Within allowed (part ∷ parts) selected ids w h =
    stepped (add_part allowed selected part) refl
      (λ more v k. select-Within allowed parts more ids v k) h
  where
    stepped :
        (r : Result (List ℕ))
        → add_part allowed selected part ≡ r
        → ((more : List ℕ)
            → Within allowed more
            → select allowed parts more ≡ ok ids
            → Within allowed ids)
        → elim r [ ok more ↦ select allowed parts more | problem c t ↦ problem c t ] ≡ ok ids
        → Within allowed ids
    stepped (ok more) e further h = further more (add_part-Within allowed selected part more w e) h
    stepped (problem c t) e further h = ground arith

module _ (ops : TextOps) (split : String → List String) (parse_int : String → Parsed) where
  named_lem :
      (down : Bool) (u : User) (allowed : List ℕ) (account_ids account_id : String) (db : Db)
      → str_eq (raw_selection ops split parse_int account_ids account_id) "" ≡ false
      → requested_account_ids ops split parse_int down u allowed account_ids account_id db
        ≡ selection ops split parse_int down u allowed
            (raw_selection ops split parse_int account_ids account_id)
            db
  unfolding requested_account_ids
  named_lem down u allowed account_ids account_id db given = rw given refl

  checked_selection :
      (down : Bool) (u : User) (allowed : List ℕ) (raw : String) (db : Db) (ids : List ℕ)
      (r : Result (List ℕ))
      → select allowed (parsed ops split parse_int raw) [] ≡ r
      → ((lifted r >>= λ selected.
            query down (provider_count u.workspace_id selected) >>= λ providers.
            require (providers == 1) 400 "Selected cloud accounts must belong to the same provider"
            >> pure selected)
          db).0
        ≡ ok ids
      → Within allowed ids × (provider_count u.workspace_id ids db ≡ 1)
  checked_selection down u allowed raw db ids (problem c t) e h = ground arith
  checked_selection true u allowed raw db ids (ok found) e h = ground arith
  checked_selection false u allowed raw db ids (ok found) e h =
      let (one, h1) =
        require_passed (provider_count u.workspace_id found db == 1) _ _ (pure found) db ids h in
      let same : found ≡ ids = ground arith in
      (
        select-Within allowed (parsed ops split parse_int raw) [] ids
            (record { allowed_all = tt; positive_all = tt; distinct = tt }) (e ∙ ap ok same),
        subst (λ l. provider_count u.workspace_id l db ≡ 1) same (eq_of_== _ 1 one),
      )

  -- A selection that is answered without a problem has only accounts that the user may use, none
  -- twice, all of one provider, where the request names accounts at all.
  pub requested_account_ids-Within :
      (down : Bool) (u : User) (allowed : List ℕ) (account_ids account_id : String) (db : Db)
      (ids : List ℕ)
      → str_eq (raw_selection ops split parse_int account_ids account_id) "" ≡ false
      → (requested_account_ids ops split parse_int down u allowed account_ids account_id db).0
        ≡ ok ids
      → Within allowed ids × (provider_count u.workspace_id ids db ≡ 1)
  unfolding selection
  requested_account_ids-Within down u allowed account_ids account_id db ids given h =
      let raw = raw_selection ops split parse_int account_ids account_id in
      let (few, h1) =
        require_passed (not (ltb 100 (length (parsed ops split parse_int raw)))) _ _ _ db ids
          (ap (λ r. r.0) (sym (named_lem down u allowed account_ids account_id db given)) ∙ h) in
      checked_selection down u allowed raw db ids _ refl h1
