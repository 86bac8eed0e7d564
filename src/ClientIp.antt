-- ===== src/ClientIp.antt =====
-- clientIP and containsIP of internal/app/auth.go: the address that attempts are counted for. The
-- addresses and networks of Go's net package are parameters.
pub mod Laws
use netriun_nexus.Prelude.{
  ℕ, String, Bool, true, false, not, List, [], ◌∷◌, ◌++◌, ◌||◌, str_eq, ltb, if◌then◌else◌, any,
  find, map, length, Option, some, none,
}

pub record NetOps (Ip Network : Type 0) : Type 0 where
  pub split_host_port : String → Option String
  pub parse_ip : String → Option Ip
  pub show_ip : Ip → String
  pub holds : Network → Ip → Bool
  pub trim_space : String → String
  pub split : String → List String

abbrev pub reverse {ℓ} : {A : Type ℓ} → List A → List A
reverse [] = []
reverse (x ∷ xs) = reverse xs ++ x ∷ []

module _ {Ip Network : Type 0} (net : NetOps Ip Network) (trusted_proxies : List Network) where
  open net use {split_host_port, parse_ip, show_ip, holds, trim_space, split}

  abbrev pub contains_ip : Ip → Bool
  contains_ip ip = any (λ network. holds network ip) trusted_proxies

  -- The loop that parses the header: none where a value is no address.
  unfoldable pub parse_chain : List String → Option (List Ip)
  parse_chain [] = some []
  parse_chain (value ∷ values) =
      let rest = parse_chain values in
      elim (parse_ip (trim_space value)) [
        | none ↦ none
        | some ip ↦ elim rest [ none ↦ none | some ips ↦ some (ip ∷ ips) ]
      ]

  -- The loop from the right, and the first address where all are trusted.
  unfoldable pub right_most : (host : String) → List Ip → String
  right_most host chain = elim (find (λ ip. not (contains_ip ip)) (reverse chain)) [
    | some ip ↦ show_ip ip
    | none ↦ elim chain [ [] ↦ host | ip ∷ _ ↦ show_ip ip ]
  ]

  abbrev pub first_is_blank : List String → Bool
  first_is_blank [] = true
  first_is_blank (value ∷ _) = str_eq (trim_space value) ""

  abbrev pub host_of : String → String
  host_of remote = elim (split_host_port remote) [ some host ↦ host | none ↦ remote ]

  abbrev forwarded : String → List String → String
  forwarded host values =
      if ltb 20 (length values) || first_is_blank values
      then host
      else elim (parse_chain values) [ none ↦ host | some chain ↦ right_most host chain ]

  unfoldable pub address_of : (host header : String) → String
  unfolding parse_chain right_most
  address_of host header = elim (parse_ip host) [
    | none ↦ host
    | some peer ↦ if contains_ip peer then forwarded host (split header) else host
  ]

  unfoldable pub client_ip : (remote header : String) → String
  unfolding address_of
  client_ip remote header = address_of (host_of remote) header
