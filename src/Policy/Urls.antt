-- ===== src/Policy/Urls.antt =====
-- What passes the URL checks of src/axiom/policy/network.py.
use axiom_agent.Prelude.{
  String, ◌≡◌, ◌≢◌, refl, Bool, true, false, ◌&&◌, ◌||◌, not, none, some, List, [], ◌∷◌, ◌++◌, any,
  arith, str_eq, contains, eq_iff, Bool-cases, Option-cases, inl, inr,
}
use axiom_agent.Policy.Platform.{
  Address, Platform, Json, Items, Members, string, array, object, scalar, nil, item, end, member,
}
use axiom_agent.Policy.Network.{
  NetworkPolicy, Checked, passed, refused, ◌>>◌, is_local, normalized_hosts, matches_host, host_of,
  check_addresses, validate_url, is_url_key, url_values, url_values_items, url_values_members,
  has_url, has_url_items, has_url_members, validate_urls, is_set, reject_all,
}

>>-eq-passed : (a b : Checked) → (a >> b) ≡ passed → (a ≡ passed) × (b ≡ passed)
>>-eq-passed passed b h = (refl, h)
>>-eq-passed (refused e) b h = absurd (ground (arith, h))

abbrev is_empty : List String → Bool
is_empty [] = true
is_empty (x ∷ xs) = false

append-is_empty : (xs ys : List String) → is_empty (xs ++ ys) ≡ (is_empty xs && is_empty ys)
append-is_empty [] ys = refl
append-is_empty (x ∷ xs) ys = refl

and-eq-true : (a b : Bool) → (a && b) ≡ true → (a ≡ true) × (b ≡ true)
and-eq-true true b h = (refl, h)
and-eq-true false b h = absurd (ground (arith, h))

reject_all-none : (infos : List Address) → reject_all infos ≡ passed → any is_local infos ≡ false
unfolding reject_all
reject_all-none [] h = refl
reject_all-none (a ∷ rest) h = elim (Bool-cases (is_local a)) [
  | inl local ↦ absurd (ground (arith, h, local))
  | inr public ↦ ground (arith, public, reject_all-none rest (ground (arith, h, public)))
]

module _ {FilePath : Type 0} (py : Platform FilePath) where
  -- Under a URL key, or in an object, what `_has_url` finds is one of the values.
  mutual
    unfolding url_values has_url

    url_values-is_empty :
        (v : Json) (key : String)
        → is_url_key py key ≡ true
        → has_url py v ≡ true
        → is_empty (url_values py v key) ≡ false
    url_values-is_empty (object ms) key k h = url_values_members-is_empty ms h
    url_values-is_empty (array xs) key k h = url_values_items-is_empty xs key k h
    url_values-is_empty (string s) key k h = ground (arith, k, h)
    url_values-is_empty scalar key k h = absurd (ground (arith, h))

    url_values_items-is_empty :
        (xs : Items) (key : String)
        → is_url_key py key ≡ true
        → has_url_items py xs ≡ true
        → is_empty (url_values_items py xs key) ≡ false
    url_values_items-is_empty nil key k h = absurd (ground (arith, h))
    url_values_items-is_empty (item x xs) key k h =
        let here = url_values-is_empty x key k in
        let there = url_values_items-is_empty xs key k in
        elim (Bool-cases (has_url py x)) [
          | inl found ↦ rw (append-is_empty, here found) refl
          | inr missing ↦ ground (
            arith,
            append-is_empty (url_values py x key) (url_values_items py xs key),
            there,
            h,
            missing,
          )
        ]

    url_values_members-is_empty :
        (ms : Members) → has_url_members py ms ≡ true → is_empty (url_values_members py ms) ≡ false
    url_values_members-is_empty end h = absurd (ground (arith, h))
    url_values_members-is_empty (member k v ms) h =
        let key = py.casefold k in
        let there = url_values_members-is_empty ms in
        let joined = append-is_empty (url_values py v key) (url_values_members py ms) in
        elim (Bool-cases (is_url_key py key && has_url py v)) [
          | inr missing ↦ ground (arith, joined, there, h, missing)
          | inl found ↦
              let (k', v') = and-eq-true (is_url_key py key) (has_url py v) found in
              ground (arith, joined, url_values-is_empty v key k' v')
        ]

  pub url_values-nonempty :
      (ms : Members) → has_url_members py ms ≡ true → url_values_members py ms ≢ []
  url_values-nonempty ms h e = ground (arith, url_values_members-is_empty ms h, e)

  pub validate_urls-each :
      (policy : NetworkPolicy) (urls : List String) (url : String)
      → validate_urls py policy urls ≡ passed
      → contains url urls ≡ true
      → validate_url py policy url ≡ passed
  unfolding validate_urls contains
  validate_urls-each policy [] url h at = absurd (ground (arith, at))
  validate_urls-each policy (u ∷ us) url h at =
      let (first, rest) = >>-eq-passed (validate_url py policy u) (validate_urls py policy us) h in
      elim (Bool-cases (str_eq url u)) [
        | inl same ↦ rw ((eq_iff url u).0 same, first) refl
        | inr other ↦ validate_urls-each policy us url rest (ground (arith, at, other))
      ]

  -- No address of a host that is a name is local.
  abbrev pub resolves_publicly : String → Bool
  resolves_publicly host = elim (py.getaddrinfo host) [
    | none ↦ false
    | some infos ↦ not (any is_local infos)
  ]

  -- A web URL without credentials, whose host is on the list, where there is one, and neither is nor
  -- resolves to a local address, where those are denied.
  pub record IsAllowedUrl (policy : NetworkPolicy) (url : String) : Type 0 where
    pub supported : (str_eq policy.access "public" || str_eq policy.access "allowlist") ≡ true
    pub has_web_scheme :
        (str_eq (py.urlparse url).scheme "http" || str_eq (py.urlparse url).scheme "https") ≡ true
    pub no_credentials :
        (is_set (py.urlparse url).username || is_set (py.urlparse url).password) ≡ false
    pub has_host : str_eq (host_of py url) "" ≡ false
    pub is_listed :
        str_eq policy.access "allowlist" ≡ true
        → any (matches_host py (host_of py url)) (normalized_hosts py policy.allowed_hosts) ≡ true
    pub is_public :
        policy.deny_private_addresses ≡ true
        → (address : Address) → py.ip_address (host_of py url) ≡ some address
        → is_local address ≡ false
    pub resolves :
        policy.deny_private_addresses ≡ true
        → py.ip_address (host_of py url) ≡ none
        → resolves_publicly (host_of py url) ≡ true

  check_addresses-resolves :
      (host : String)
      → py.ip_address host ≡ none
      → check_addresses py host ≡ passed
      → resolves_publicly host ≡ true
  unfolding check_addresses
  check_addresses-resolves host named h = elim (Option-cases (py.getaddrinfo host)) [
    | inl absent ↦ absurd (ground (arith, h, named, absent))
    | inr (infos, found) ↦
        let each = reject_all-none infos (ground (arith, h, named, found)) in
        ground (arith, found, each)
  ]

  pub validate_url-IsAllowedUrl :
      (policy : NetworkPolicy) (url : String)
      → validate_url py policy url ≡ passed
      → IsAllowedUrl policy url
  unfolding validate_url check_addresses
  validate_url-IsAllowedUrl policy url h = record {
    supported = ground (arith, h);
    has_web_scheme = ground (arith, h);
    no_credentials = ground (arith, h);
    has_host = ground (arith, h);
    is_listed = λ listed. ground (arith, h, listed);
    is_public = λ denied address found. ground (arith, h, denied, found);
    resolves =
        λ denied named. check_addresses-resolves (host_of py url) named (ground (arith, h, denied));
  }
