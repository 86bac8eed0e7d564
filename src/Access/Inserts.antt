-- ===== src/Access/Inserts.antt =====
-- INSERT … ON CONFLICT DO NOTHING of several assignments.
use mathlib.Core.List.{Memᴰ}
use netriun_nexus.Prelude.{
  ℕ, Bool, true, ◌≡◌, refl, ◌∙◌, List, [], ◌∷◌, arith, any, any-append, All, All-append, Bool-cases,
  inl, inr, str_eq_refl, ==_refl, eq_of_==, ap,
}
use netriun_nexus.Store.{Assignment, Db, Principal, person, team, Source, manual, sso}
use netriun_nexus.Access.{same_slot, same_principal, same_source, insert_or_skip, insert_rows}

-- The database without its assignments.
abbrev pub other_tables : Db → Db
other_tables db = record db { assignments = []; next_id = 0 }

insert_or_skip-other_tables :
    (x : Assignment) (db : Db) → other_tables (insert_or_skip x db) ≡ other_tables db
unfolding insert_or_skip
insert_or_skip-other_tables x db = elim (Bool-cases (any (same_slot x) db.assignments)) [
  | inl e ↦ rw e
  | inr e ↦ rw e
]

pub insert_rows-other_tables :
    (xs : List Assignment) (db : Db) → other_tables (insert_rows xs db) ≡ other_tables db
unfolding insert_rows
insert_rows-other_tables [] db = refl
insert_rows-other_tables (x ∷ xs) db =
    insert_rows-other_tables xs (insert_or_skip x db) ∙ insert_or_skip-other_tables x db

same_principal_refl : (p : Principal) → same_principal p p ≡ true
same_principal_refl (person id) = ==_refl id
same_principal_refl (team id) = ==_refl id

same_source_refl : (s : Source) → same_source s s ≡ true
same_source_refl manual = refl
same_source_refl sso = refl

same_slot_refl : (x : Assignment) → same_slot x x ≡ true
same_slot_refl x = ground (
  arith,
  same_principal_refl x.principal,
  same_source_refl x.source_type,
  str_eq_refl x.service_key,
  str_eq_refl x.source_ref,
)

pub eq_of_same_principal : (p q : Principal) → same_principal p q ≡ true → p ≡ q
eq_of_same_principal (person a) (person b) h = ap person (eq_of_== a b h)
eq_of_same_principal (team a) (team b) h = ap team (eq_of_== a b h)
eq_of_same_principal (person a) (team b) h = cc
eq_of_same_principal (team a) (person b) h = cc

any-insert_or_skip :
    (p : Assignment → Bool) (x : Assignment) (db : Db)
    → any p db.assignments ≡ true
    → any p (insert_or_skip x db).assignments ≡ true
unfolding insert_or_skip
any-insert_or_skip p x db h =
    ground (arith, any-append p db.assignments (record x { id = db.next_id } ∷ []))

insert_or_skip-there :
    (x : Assignment) (db : Db) → any (same_slot x) (insert_or_skip x db).assignments ≡ true
unfolding insert_or_skip
insert_or_skip-there x db = ground (
  arith,
  any-append (same_slot x) db.assignments (record x { id = db.next_id } ∷ []),
  same_slot_refl x,
)

-- Rows stay.
pub any-insert_rows :
    (p : Assignment → Bool) (xs : List Assignment) (db : Db)
    → any p db.assignments ≡ true
    → any p (insert_rows xs db).assignments ≡ true
unfolding insert_rows
any-insert_rows p [] db h = h
any-insert_rows p (x ∷ xs) db h =
    any-insert_rows p xs (insert_or_skip x db) (any-insert_or_skip p x db h)

-- Each row finds its slot taken, by itself or by an older row.
pub insert_rows-there :
    {x : Assignment} (xs : List Assignment) (db : Db)
    → Memᴰ x xs
    → any (same_slot x) (insert_rows xs db).assignments ≡ true
unfolding insert_rows
insert_rows-there [] db m = elim m [ ]
insert_rows-there {x} (y ∷ ys) db (Memᴰ.head e) =
    any-insert_rows (same_slot x) ys (insert_or_skip y db) (rw e (insert_or_skip-there y db))
insert_rows-there (y ∷ ys) db (Memᴰ.tail m) = insert_rows-there ys (insert_or_skip y db) m

-- What holds of the rows in the table and of those inserted, whatever their ids, holds of all.
module _ (P : Assignment → Type 0)
    (any_id : (x : Assignment) (id : ℕ) → P x → P (record x { id = id })) where
  insert_or_skip-All :
      (x : Assignment) (db : Db)
      → P x
      → All P db.assignments
      → All P (insert_or_skip x db).assignments
  unfolding insert_or_skip
  insert_or_skip-All x db p h = elim (Bool-cases (any (same_slot x) db.assignments)) [
    | inl e ↦ rw e h
    | inr e ↦ rw e (All-append P db.assignments _ h (any_id x db.next_id p, tt))
  ]

  pub insert_rows-All :
      (xs : List Assignment) (db : Db)
      → All P xs
      → All P db.assignments
      → All P (insert_rows xs db).assignments
  unfolding insert_rows
  insert_rows-All [] db k h = h
  insert_rows-All (x ∷ xs) db (p, k) h =
      insert_rows-All xs (insert_or_skip x db) k (insert_or_skip-All x db p h)
