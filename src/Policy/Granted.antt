-- ===== src/Policy/Granted.antt =====
-- What `DefaultPermissionPolicy.evaluate` of src/axiom/policy/permissions.py grants.
use axiom_agent.Prelude.{
  String, ◌≡◌, ◌≢◌, Bool, true, false, ◌||◌, not, [], any, str_eq, contains, is_some,
}
use axiom_agent.Policy.Platform.{Platform}
use axiom_agent.Policy.Network.{url_values_members}
use axiom_agent.Policy.Permissions.{
  PermissionPolicy, PermissionRequest, Capability, parse_capability, is_filesystem, is_network,
  is_risky, is_of, is_refused, escapes, is_sensitive, check_network,
}
use axiom_agent.Policy.Urls.{IsAllowedUrl}

module _ {FilePath : Type 0} (py : Platform FilePath) (policy : PermissionPolicy FilePath)
    (request : PermissionRequest) where
  abbrev pub has_capability : String → Bool
  has_capability c = contains c request.capabilities

  abbrev pub uses : (Capability → Bool) → Bool
  uses kind = any (is_of kind) request.capabilities

  pub record IsGranted : Type 0 where
    pub known :
        (c : String) → contains c request.capabilities ≡ true → is_some (parse_capability c) ≡ true
    pub inside :
        uses is_filesystem ≡ true
        → (path : String) → contains path request.resource_paths ≡ true
        → escapes py policy.workspace path ≡ false
    pub not_sensitive :
        uses is_filesystem ≡ true
        → (path : String) → contains path request.resource_paths ≡ true
        → is_sensitive py policy.sensitive_path_patterns path ≡ false
    pub urls :
        uses is_network ≡ true
        → (url : String) → contains url (url_values_members py request.arguments) ≡ true
        → IsAllowedUrl py policy.network_policy url
    pub has_target :
        uses is_network ≡ true
        → str_eq policy.network_policy.access "allowlist" ≡ true
        → url_values_members py request.arguments ≢ []
    pub not_asked : str_eq policy.hitl_mode "always" ≡ false
    pub no_risk :
        (uses is_risky || request.legacy_requires_approval) ≡ true
        → str_eq policy.hitl_mode "never" ≡ true

  -- The tests that a call has to pass.
  record Tests : Type 0 where
    known : any (λ c. not (is_some (parse_capability c))) request.capabilities ≡ false
    not_sensitive :
        uses is_filesystem ≡ true
        → any (is_sensitive py policy.sensitive_path_patterns) request.resource_paths ≡ false
    inside :
        uses is_filesystem ≡ true → any (escapes py policy.workspace) request.resource_paths ≡ false
    network :
        uses is_network ≡ true
        → is_refused (check_network py policy.network_policy request.arguments) ≡ false
    not_asked : str_eq policy.hitl_mode "always" ≡ false
    no_risk :
        (uses is_risky || request.legacy_requires_approval) ≡ true
        → str_eq policy.hitl_mode "never" ≡ true
