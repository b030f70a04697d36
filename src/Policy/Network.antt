-- ===== src/Policy/Network.antt =====
-- `NetworkPolicy` of src/axiom/policy/network.py, and the search for URLs in a tool's arguments there
-- and in src/axiom/policy/permissions.py.
use axiom_agent.Prelude.{
  String, Bool, false, ◌&&◌, ◌||◌, not, Option, none, some, List, [], ◌∷◌, ◌++◌, any, keep, map,
  str_eq, if◌then◌else◌,
}
use Prim.Native.String.{◌++◌ as ◌<>◌}
use axiom_agent.Dependency.Category.{occurs_in}
use axiom_agent.Policy.Platform.{
  Address, Platform, Json, Items, Members, string, array, object, scalar, nil, item, end, member,
}

pub record NetworkPolicy : Type 0 where
  pub access : String
  pub allowed_hosts : List String
  pub deny_private_addresses : Bool

-- The `NetworkPolicyError`s, by their messages.
pub data NetworkError : Type 0 where
  access_disabled unsupported_mode not_http has_credentials no_hostname : NetworkError
  host_not_allowed unresolved private_address no_target : NetworkError

pub data Checked : Type 0 where
  passed : Checked
  refused : NetworkError → Checked

infixl 5 ◌>>◌
abbrev pub ◌>>◌ : Checked → Checked → Checked
passed >> next = next
refused e >> next = refused e

-- `if test: raise error`
abbrev pub refuse_if : Bool → NetworkError → Checked
refuse_if test error = if test then refused error else passed

-- The truth of an optional text.
abbrev pub is_set : Option String → Bool
is_set none = false
is_set (some s) = not (str_eq s "")

abbrev pub or_empty : Option String → String
or_empty none = ""
or_empty (some s) = s

-- `_reject_private`
abbrev pub is_local : Address → Bool
is_local a =
    a.is_private || a.is_loopback || a.is_link_local || a.is_multicast || a.is_reserved
    || a.is_unspecified

unfoldable pub reject_all : List Address → Checked
reject_all [] = passed
reject_all (a ∷ rest) = refuse_if (is_local a) private_address >> reject_all rest

module _ {FilePath : Type 0} (py : Platform FilePath) where
  unfoldable pub normalized_hosts : List String → List String
  normalized_hosts hosts =
      map (λ h. py.casefold (py.rstrip_dots (py.strip h)))
        (keep (λ h. not (str_eq (py.strip h) "")) hosts)

  abbrev pub matches_host : String → String → Bool
  matches_host host allowed = str_eq host allowed || py.ends_with host ("." <> allowed)

  unfoldable pub host_of : String → String
  host_of url = py.casefold (py.rstrip_dots (or_empty (py.urlparse url).hostname))

  -- The address checks of `validate_url`.
  unfoldable pub check_addresses : String → Checked
  check_addresses host = elim (py.ip_address host) [
    | some address ↦ refuse_if (is_local address) private_address
    | none ↦ elim (py.getaddrinfo host) [
      | none ↦ refused unresolved
      | some infos ↦ reject_all infos
    ]
  ]

  unfoldable pub validate_url : NetworkPolicy → String → Checked
  validate_url policy url =
      let parsed = py.urlparse url in
      let host = host_of url in
      refuse_if (str_eq policy.access "disabled") access_disabled
      >> refuse_if (not (str_eq policy.access "public" || str_eq policy.access "allowlist"))
          unsupported_mode
      >> refuse_if (not (str_eq parsed.scheme "http" || str_eq parsed.scheme "https")) not_http
      >> refuse_if (is_set parsed.username || is_set parsed.password) has_credentials
      >> refuse_if (str_eq host "") no_hostname
      >> refuse_if
          (str_eq policy.access "allowlist"
            && not (any (matches_host host) (normalized_hosts policy.allowed_hosts)))
          host_not_allowed
      >> (if policy.deny_private_addresses then check_addresses host else passed)

  -- `key in {"url", "uri"}`
  abbrev pub is_url_key : String → Bool
  is_url_key key = str_eq key "url" || str_eq key "uri"

  -- `_url_values` of network.py: every text with "://" that stands under such a key.
  unfoldable mutual
    pub url_values : Json → String → List String
    url_values (object ms) key = url_values_members ms
    url_values (array xs) key = url_values_items xs key
    url_values (string s) key = if is_url_key key && occurs_in "://" s then s ∷ [] else []
    url_values scalar key = []

    pub url_values_items : Items → String → List String
    url_values_items nil key = []
    url_values_items (item x xs) key = url_values x key ++ url_values_items xs key

    pub url_values_members : Members → List String
    url_values_members end = []
    url_values_members (member k v ms) = url_values v (py.casefold k) ++ url_values_members ms

  -- `_has_url` of permissions.py
  unfoldable mutual
    pub has_url : Json → Bool
    has_url (object ms) = has_url_members ms
    has_url (array xs) = has_url_items xs
    has_url (string s) = occurs_in "://" s
    has_url scalar = false

    pub has_url_items : Items → Bool
    has_url_items nil = false
    has_url_items (item x xs) = has_url x || has_url_items xs

    pub has_url_members : Members → Bool
    has_url_members end = false
    has_url_members (member k v ms) =
        (is_url_key (py.casefold k) && has_url v) || has_url_members ms

  unfoldable pub validate_urls : NetworkPolicy → List String → Checked
  validate_urls policy [] = passed
  validate_urls policy (url ∷ urls) = validate_url policy url >> validate_urls policy urls

  -- The arguments of a call are an object.
  unfoldable pub validate_arguments : NetworkPolicy → Members → Checked
  validate_arguments policy arguments = validate_urls policy (url_values_members arguments)
