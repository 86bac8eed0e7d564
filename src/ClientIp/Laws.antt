-- ===== src/ClientIp/Laws.antt =====
-- A client cannot choose the address that it is counted for.
use netriun_nexus.Prelude.{
  String, Bool, true, false, not, ◌≡◌, refl, ap, ◌∙◌, List, [], ◌∷◌, ◌++◌, ltb, find, length, some,
  All,
}
use netriun_nexus.ClientIp.{
  NetOps, contains_ip, parse_chain, right_most, host_of, first_is_blank, client_ip, address_of,
  reverse,
}

module _ {A : Type 0} (p : A → Bool) where
  find-append_none : (xs ys : List A) → All (λ x. p x ≡ false) xs → find p (xs ++ ys) ≡ find p ys
  find-append_none [] ys h = refl
  find-append_none (x ∷ xs) ys (e, h) = rw e (find-append_none xs ys h)

  All-snoc :
      (xs : List A) (x : A)
      → All (λ y. p y ≡ false) xs
      → p x ≡ false
      → All (λ y. p y ≡ false) (xs ++ x ∷ [])
  All-snoc [] x h e = (e, tt)
  All-snoc (y ∷ xs) x (q, h) e = (q, All-snoc xs x h e)

  All-reverse : (xs : List A) → All (λ y. p y ≡ false) xs → All (λ y. p y ≡ false) (reverse xs)
  All-reverse [] h = tt
  All-reverse (x ∷ xs) (e, h) = All-snoc (reverse xs) x (All-reverse xs h) e

append_assoc : {A : Type 0} (xs ys zs : List A) → (xs ++ ys) ++ zs ≡ xs ++ (ys ++ zs)
append_assoc [] ys zs = refl
append_assoc (x ∷ xs) ys zs = ap (λ l. x ∷ l) (append_assoc xs ys zs)

reverse-append : {A : Type 0} (xs ys : List A) → reverse (xs ++ ys) ≡ reverse ys ++ reverse xs
reverse-append [] ys = append_nil (reverse ys)
  where
    append_nil : {A : Type 0} (zs : List A) → zs ≡ zs ++ []
    append_nil [] = refl
    append_nil (z ∷ zs) = ap (λ l. z ∷ l) (append_nil zs)
reverse-append (x ∷ xs) ys =
    rw (reverse-append xs ys) (append_assoc (reverse ys) (reverse xs) (x ∷ []))

find-last :
    {A : Type 0} (p : A → Bool) (before : List A) (x : A) (after : List A)
    → p x ≡ true
    → All (λ y. p y ≡ false) after
    → find p (reverse (before ++ x ∷ after)) ≡ some x
find-last p before x after h k =
    rw (reverse-append before (x ∷ after), append_assoc (reverse after) (x ∷ []) (reverse before))
      (find-append_none p (reverse after) (x ∷ reverse before) (All-reverse p after k)
        ∙ head_found p x (reverse before) h)
  where
    head_found :
        {A : Type 0} (p : A → Bool) (x : A) (xs : List A) → p x ≡ true → find p (x ∷ xs) ≡ some x
    head_found p x xs h = rw h refl

module _ {Ip Network : Type 0} (net : NetOps Ip Network) (trusted_proxies : List Network) where
  open net use {parse_ip, show_ip, split}

  address-right_most :
      (host header : String) (peer : Ip) (before : List Ip) (x : Ip) (after : List Ip)
      → parse_ip host ≡ some peer
      → contains_ip net trusted_proxies peer ≡ true
      → ltb 20 (length (split header)) ≡ false
      → first_is_blank net trusted_proxies (split header) ≡ false
      → parse_chain net trusted_proxies (split header) ≡ some (before ++ x ∷ after)
      → find (λ ip. not (contains_ip net trusted_proxies ip)) (reverse (before ++ x ∷ after))
        ≡ some x
      → address_of net trusted_proxies host header ≡ show_ip x
  unfolding address_of right_most
  address-right_most host header peer before x after isp trusted few full chain last =
      rw (address_of, isp, trusted, few, full, chain, right_most, last) refl

  address-untrusted :
      (host header : String) (peer : Ip)
      → parse_ip host ≡ some peer
      → contains_ip net trusted_proxies peer ≡ false
      → address_of net trusted_proxies host header ≡ host
  unfolding address_of
  address-untrusted host header peer isp foreign = rw (address_of, isp, foreign) refl

  -- A request that comes over trusted proxies is counted for the right-most address of the header
  -- that is not one of theirs, whatever the client put before it, where the header has at most 20
  -- values, the first not blank and all of them addresses.
  pub client_ip-right_most :
      (remote header : String) (peer : Ip) (before : List Ip) (x : Ip) (after : List Ip)
      → parse_ip (host_of net trusted_proxies remote) ≡ some peer
      → contains_ip net trusted_proxies peer ≡ true
      → ltb 20 (length (split header)) ≡ false
      → first_is_blank net trusted_proxies (split header) ≡ false
      → parse_chain net trusted_proxies (split header) ≡ some (before ++ x ∷ after)
      → contains_ip net trusted_proxies x ≡ false
      → All (λ ip. not (contains_ip net trusted_proxies ip) ≡ false) after
      → client_ip net trusted_proxies remote header ≡ show_ip x
  unfolding client_ip
  client_ip-right_most remote header peer before x after isp trusted few full chain foreign known =
      address-right_most (host_of net trusted_proxies remote) header peer before x after isp trusted
        few full chain
        (find-last (λ ip. not (contains_ip net trusted_proxies ip)) before x after (ap not foreign)
          known)

  -- A request that does not come from a trusted proxy is counted for the address that it comes from,
  -- whatever its header says.
  pub client_ip-untrusted :
      (remote header : String) (peer : Ip)
      → parse_ip (host_of net trusted_proxies remote) ≡ some peer
      → contains_ip net trusted_proxies peer ≡ false
      → client_ip net trusted_proxies remote header ≡ host_of net trusted_proxies remote
  unfolding client_ip
  client_ip-untrusted remote header peer isp foreign =
      address-untrusted (host_of net trusted_proxies remote) header peer isp foreign
