-- ===== src/Sessions/Revocation.antt =====
-- Which sessions still open the API after a user is changed, or after signing out.
use mathlib.Core.Bool.{false≢true}
use netriun_nexus.Prelude.{
  AtMostOne, ℕ, String, Bool, true, false, ◌≡◌, refl, sym, ap, ◌∙◌, List, [], ◌∷◌, ◌≤◌, ◌==◌, arith,
  any, find, Bool-cases, inl, inr, Option, some, none, change, drop_where, ok, problem, str_eq,
}
use netriun_nexus.Store.{Account, User}
use netriun_nexus.Text.{TextOps}
use netriun_nexus.Credentials.{UnicodeOps}
use netriun_nexus.Users.{Profile, is_row, is_refused, edited, update_user}
use netriun_nexus.Users.Owners.{IsSound}
use netriun_nexus.Sessions.{
  Session, Web, Carried, session_token, read_session, user_with_id, expired, authenticate, logout,
}

find_head :
    (p : Account → Bool) (y : Account) (ys : List Account) → p y ≡ true → find p (y ∷ ys) ≡ some y
find_head p y ys h = rw h refl

find_tail :
    (p : Account → Bool) (y : Account) (ys : List Account)
    → p y ≡ false
    → find p (y ∷ ys) ≡ find p ys
find_tail p y ys h = rw h refl

-- The row that the search by id finds, after the UPDATE of that id.
find-change :
    (f : Account → Account) (ws id : ℕ) (x : Account) (xs : List Account)
    → ((y : Account) → (f y).id ≡ y.id)
    → AtMostOne (λ y. y.id == id) xs
    → find (λ y. y.id == id) xs ≡ some x
    → any (is_row ws id) xs ≡ true
    → find (λ y. y.id == id) (change (is_row ws id) f xs) ≡ some (f x)
find-change f ws id x [] same u e h = ground arith
find-change f ws id x (y ∷ ys) same (v, u) e h = elim (Bool-cases (is_row ws id y)) [
  | inl q ↦
      let here : (y.id == id) ≡ true = ground arith in
      let it : some y ≡ some x = sym (find_head (λ z. z.id == id) y ys here) ∙ e in
      rw q (
        find_head (λ z. z.id == id) (f y) _ (ap (λ n. n == id) (same y) ∙ here)
        ∙ ap (λ (o : Option Account). elim o [ none ↦ none | some z ↦ some (f z) ]) it)
  | inr q ↦ elim (Bool-cases (y.id == id)) [
    | inl here ↦ absurd (false≢true (sym (none_left ys (v here)) ∙ rest_of q h))
    | inr off ↦ rw q (
        find_tail (λ z. z.id == id) y _ off
        ∙ find-change f ws id x ys same u (sym (find_tail (λ z. z.id == id) y ys off) ∙ e)
            (rest_of q h))
  ]
]
  where
    rest_of :
        is_row ws id y ≡ false → any (is_row ws id) (y ∷ ys) ≡ true → any (is_row ws id) ys ≡ true
    rest_of q h = ground arith

    none_left :
        (zs : List Account) → any (λ z. z.id == id) zs ≡ false → any (is_row ws id) zs ≡ false
    none_left [] e = refl
    none_left (z ∷ zs) e = ground (arith, none_left zs (ground arith))

module _ (digest : String → String) (redis_down db_down : Bool) (carried : Carried) where
  -- A request whose token belongs to a session of another version than the user's row has.
  stale :
      (web : Web) (s : Session) (x : Account)
      → str_eq (session_token carried) "" ≡ false
      → read_session (digest (session_token carried)) web.sessions ≡ some s
      → find (λ y. y.id == s.user_id) web.db.users ≡ some x
      → (x.session_version == s.version) ≡ false
      → authenticate digest redis_down db_down carried web ≡ problem 401 expired
  unfolding authenticate user_with_id
  stale web s x given stored found other = ground arith

module _ (ops : TextOps) (uni : UnicodeOps) where
  -- When saving a user succeeds, every session of that user that was opened before is refused from
  -- then on, with 401, also where Redis or the database fails; its version is at most that of the
  -- row before the change, and ids are unique.
  pub update_user-revokes :
      (digest : String → String) (redis_down db_down : Bool) (carried : Carried) (web : Web)
      (s : Session) (x : Account) (ws : ℕ) (hash : String) (p : Profile)
      → IsSound web.db
      → str_eq (session_token carried) "" ≡ false
      → read_session (digest (session_token carried)) web.sessions ≡ some s
      → find (λ y. y.id == s.user_id) web.db.users ≡ some x
      → s.version ≤ x.session_version
      → (update_user ops uni ws s.user_id hash p web.db).0 ≡ ok tt
      → authenticate digest redis_down db_down carried
          (record web { db = (update_user ops uni ws s.user_id hash p web.db).1 })
        ≡ problem 401 expired
  unfolding update_user
  update_user-revokes digest redis_down db_down carried web s x ws hash p sound given stored found
        old done =
      elim (Bool-cases (any (is_row ws s.user_id) web.db.users)) [
        | inl there ↦ elim (Bool-cases (is_refused ops uni s.user_id p web.db)) [
          | inl refused ↦ ground arith
          | inr free ↦
              let next =
                find-change (edited ops uni hash p) ws s.user_id x web.db.users (λ y. refl)
                  (sound.unique s.user_id) found there in
              rw (there, free)
                (stale digest redis_down db_down carried
                  (record web {
                    db = record web.db {
                      users = change (is_row ws s.user_id) (edited ops uni hash p) web.db.users;
                    };
                  })
                  s (edited ops uni hash p x) given stored next (ground arith))
        ]
        | inr missing ↦ ground arith
      ]

find-drop :
    (key : String) (sessions : List Session)
    → read_session key (drop_where (λ s. str_eq s.key key) sessions) ≡ none
find-drop key [] = refl
find-drop key (s ∷ sessions) = elim (Bool-cases (str_eq s.key key)) [
  | inl e ↦ rw e (find-drop key sessions)
  | inr e ↦ rw e (rw e (find-drop key sessions))
]

-- After signing out, the token of the request opens nothing, where the sign-out answers without a
-- problem.
pub logout-revokes :
    (digest : String → String) (down redis_down db_down : Bool) (carried : Carried) (web : Web)
    → (logout digest down carried web).0 ≡ ok tt
    → ¬ (
        (u : User) × (authenticate digest redis_down db_down carried
            (logout digest down carried web).1
          ≡ ok u))
unfolding logout authenticate
logout-revokes digest down redis_down db_down carried web done (u, opened) =
    ground (arith, find-drop (digest (session_token carried)) web.sessions)
