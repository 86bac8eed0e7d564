-- ===== src/Selection.antt =====
-- requestedAccountIDs of internal/app/auth.go: the accounts that a request selects, a part of those
-- that its user may use.
pub mod Laws
use netriun_nexus.Prelude.{
  ℕ, String, Bool, true, false, not, List, [], ◌∷◌, ◌++◌, ◌+◌, ◌&&◌, ◌||◌, ◌==◌, str_eq, ltb,
  if◌then◌else◌, any, keep, map, contains, length, Result, ok, problem, Handler, pure, fail,
  require, ◌>>=◌, ◌>>◌,
}
use netriun_nexus.Store.{User, Provider, aws, azure, gcp, alibaba, CloudAccount, Db}
use netriun_nexus.Text.{TextOps}
use netriun_nexus.Request.{Parsed, positive, negative, malformed, query}

abbrev pub same_provider : Provider → Provider → Bool
same_provider aws aws = true
same_provider azure azure = true
same_provider gcp gcp = true
same_provider alibaba alibaba = true
same_provider _ _ = false

-- count(DISTINCT provider).
unfoldable pub distinct : List Provider → ℕ
distinct [] = 0
distinct (p ∷ ps) = let rest = distinct ps in if any (same_provider p) ps then rest else 1 + rest

abbrev pub provider_count : ℕ → List ℕ → Db → ℕ
provider_count workspace ids db = distinct (
    map (λ (a : CloudAccount). a.provider)
      (keep (λ (a : CloudAccount). a.workspace_id == workspace && contains ids a.id)
        db.cloud_accounts))

-- One part of the list: `seen` holds exactly the ids of `selected`.
abbrev pub add_id : (allowed selected : List ℕ) → ℕ → Result (List ℕ)
add_id allowed selected id =
    if ltb id 1
    then problem 400 "Invalid cloud account selection"
    else if not (contains allowed id)
    then problem 403 "Cloud account access required"
    else if contains selected id
    then ok selected
    else ok (selected ++ id ∷ [])

abbrev pub add_part : (allowed selected : List ℕ) → Parsed → Result (List ℕ)
add_part allowed selected (positive id) = add_id allowed selected id
add_part allowed selected _ = problem 400 "Invalid cloud account selection"

unfoldable pub select : (allowed : List ℕ) → List Parsed → (selected : List ℕ) → Result (List ℕ)
select allowed [] selected = ok selected
select allowed (part ∷ parts) selected = elim (add_part allowed selected part) [
  | ok more ↦ select allowed parts more
  | problem status message ↦ problem status message
]

abbrev pub lifted : {S A : Type 0} → Result A → Handler S A
lifted r s = (r, s)

-- strings.Split at the commas and strconv.ParseInt.
module _ (ops : TextOps) (split : String → List String) (parse_int : String → Parsed) where
  open ops use {trim_space}

  abbrev pub raw_selection : (account_ids account_id : String) → String
  raw_selection account_ids account_id =
      let raw = trim_space account_ids in if str_eq raw "" then trim_space account_id else raw

  abbrev pub parsed : String → List Parsed
  parsed raw = map (λ part. parse_int (trim_space part)) (split raw)

  unfoldable pub selection :
      (down : Bool) → User → (allowed : List ℕ) → String → Handler Db (List ℕ)
  unfolding select distinct
  selection down u allowed raw = do
    require (not (ltb 100 (length (parsed raw)))) 400 "Select no more than 100 cloud accounts"
    selected ← lifted (select allowed (parsed raw) [])
    providers ← query down (provider_count u.workspace_id selected)
    require (providers == 1) 400 "Selected cloud accounts must belong to the same provider"
    pure selected

  unfoldable pub requested_account_ids :
      (down : Bool)
      → User
      → (allowed : List ℕ) → (account_ids account_id : String) → Handler Db (List ℕ)
  unfolding selection
  requested_account_ids down u allowed account_ids account_id =
      let raw = raw_selection account_ids account_id in
      if str_eq raw "" then pure allowed else selection down u allowed raw
