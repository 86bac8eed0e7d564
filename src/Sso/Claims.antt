-- ===== src/Sso/Claims.antt =====
-- The claims of an identity provider and the attributes of a SAML assertion: firstClaim,
-- claimValues and claimBool of internal/app/sso.go, and the loop of samlCallback over attributes.
use netriun_nexus.Prelude.{
  String, Bool, false, List, [], ◌∷◌, str_eq, map, if◌then◌else◌, Option, some, none,
}

mutual
  -- A value of `any` as encoding/json fills it; `texts` is the []string of a SAML attribute, and
  -- `other` a number or null, as fmt.Sprint writes it.
  pub data Claim : Type 0 where
    text : String → Claim
    texts : List String → Claim
    flag : Bool → Claim
    items : Claims → Claim
    object : Fields → Claim
    other : String → Claim

  pub data Claims : Type 0 where
    nil : Claims
    cons : Claim → Claims → Claims

  -- map[string]any.
  pub data Fields : Type 0 where
    none_left : Fields
    field : String → Claim → Fields → Fields

-- strings.TrimSpace, strings.Split(_, "."), strings.EqualFold, and fmt.Sprint of a slice or a map.
pub record ClaimOps : Type 0 where
  pub trim_space : String → String
  pub split : String → List String
  pub equal_fold : String → String → Bool
  pub print : Claim → String

-- object[part]: nil where the part is missing.
unfoldable pub member : String → Fields → Claim
member part none_left = other "<nil>"
member part (field name value rest) =
    let later = member part rest in if str_eq name part then value else later

unfoldable pub walk : List String → Claim → Option Claim
unfolding member
walk [] value = some value
walk (part ∷ parts) (object fields) = walk parts (member part fields)
walk (part ∷ parts) _ = none

pub record Attribute : Type 0 where
  pub name : String
  pub friendly_name : String
  pub values : List String

module _ (ops : ClaimOps) where
  open ops use {trim_space, split, equal_fold, print}

  abbrev unless_blank : String → List String → List String
  unless_blank s rest = if str_eq (trim_space s) "" then rest else trim_space s ∷ rest

  unfoldable pub item_texts : Claims → List String
  item_texts nil = []
  item_texts (cons (text s) rest) = let later = item_texts rest in unless_blank s later
  item_texts (cons _ rest) = item_texts rest

  unfoldable pub texts_of : Claim → List String
  unfolding item_texts
  texts_of (text s) = unless_blank s []
  texts_of (texts values) = values
  texts_of (items values) = item_texts values
  texts_of _ = []

  unfoldable pub claim_values : Fields → (path : String) → List String
  unfolding walk texts_of
  claim_values claims path = elim (walk (split path) (object claims)) [
    | none ↦ []
    | some value ↦ texts_of value
  ]

  unfoldable pub first_claim : Fields → (path : String) → String
  first_claim claims path = elim (claim_values claims path) [ [] ↦ "" | value ∷ _ ↦ value ]

  abbrev truth_of : Claim → Bool
  truth_of (flag b) = b
  truth_of (text s) = equal_fold s "true"
  truth_of (other s) = equal_fold s "true"
  truth_of (texts values) = equal_fold (print (texts values)) "true"
  truth_of (items values) = equal_fold (print (items values)) "true"
  truth_of (object fields) = equal_fold (print (object fields)) "true"

  unfoldable pub claim_bool : Fields → (path : String) → Bool
  unfolding walk
  claim_bool claims path = elim (walk (split path) (object claims)) [
    | none ↦ false
    | some value ↦ truth_of value
  ]

  -- A later attribute of a name takes the place of an earlier one.
  unfoldable pub attribute_fields : List Attribute → Fields → Fields
  attribute_fields [] fields = fields
  attribute_fields (a ∷ rest) fields =
      let named = field a.name (texts (map trim_space a.values)) fields in
      attribute_fields rest (
        if str_eq a.friendly_name ""
        then named
        else field a.friendly_name (texts (map trim_space a.values)) named)
