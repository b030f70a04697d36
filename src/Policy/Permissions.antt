-- ===== src/Policy/Permissions.antt =====
-- `DefaultPermissionPolicy` of src/axiom/policy/permissions.py and `PathGuard.validate` of
-- src/axiom/policy/path_guard.py. A decision is its action and its rule; the texts of the reasons
-- are not modelled.
use axiom_agent.Prelude.{
  String, Bool, true, false, ◌&&◌, ◌||◌, not, Option, none, some, List, [], ◌∷◌, any, is_some,
  str_eq, if◌then◌else◌,
}
use axiom_agent.Policy.Platform.{Platform, Members}
use axiom_agent.Policy.Network.{
  NetworkPolicy, Checked, passed, refused, ◌>>◌, refuse_if, no_target, access_disabled,
  validate_arguments, has_url_members,
}

pub data Capability : Type 0 where
  filesystem_read filesystem_write shell_execute : Capability
  network_read network_write external_side_effect : Capability

pub data PermissionAction : Type 0 where
  allow deny require_approval : PermissionAction

-- The values of `matched_rule`.
pub data Rule : Type 0 where
  capability_unknown filesystem_sensitive_path filesystem_outside_workspace : Rule
  network_policy hitl_always hitl_never : Rule
  capability_sensitive capability_read_only legacy_compatible : Rule

pub record PermissionDecision : Type 0 where
  pub action : PermissionAction
  pub matched_rule : Rule

pub record PermissionRequest : Type 0 where
  pub capabilities : List String
  pub arguments : Members
  pub resource_paths : List String
  pub legacy_requires_approval : Bool

pub record PermissionPolicy (FilePath : Type 0) : Type 0 where
  pub workspace : FilePath
  pub hitl_mode : String
  pub network_policy : NetworkPolicy
  pub sensitive_path_patterns : List String

-- The member of `Capability` with this value.
unfoldable pub parse_capability : String → Option Capability
parse_capability s =
    if str_eq s "filesystem.read"
    then some Capability.filesystem_read
    else if str_eq s "filesystem.write"
    then some Capability.filesystem_write
    else if str_eq s "shell.execute"
    then some Capability.shell_execute
    else if str_eq s "network.read"
    then some Capability.network_read
    else if str_eq s "network.write"
    then some Capability.network_write
    else if str_eq s "external.side_effect"
    then some Capability.external_side_effect
    else none

abbrev pub is_filesystem : Capability → Bool
is_filesystem Capability.filesystem_read = true
is_filesystem Capability.filesystem_write = true
is_filesystem _ = false

abbrev pub is_network : Capability → Bool
is_network Capability.network_read = true
is_network Capability.network_write = true
is_network _ = false

abbrev pub is_risky : Capability → Bool
is_risky Capability.filesystem_write = true
is_risky Capability.shell_execute = true
is_risky Capability.network_write = true
is_risky Capability.external_side_effect = true
is_risky _ = false

-- `capability in {…}`, for a known capability of this kind.
abbrev pub is_of : (Capability → Bool) → String → Bool
is_of kind s = elim (parse_capability s) [ none ↦ false | some c ↦ kind c ]

abbrev pub is_nonempty : List String → Bool
is_nonempty [] = false
is_nonempty (x ∷ xs) = true

-- `if test: return decision`
abbrev pub return_if : Bool → PermissionAction → Rule → PermissionDecision → PermissionDecision
return_if test action rule next =
    if test then record { action = action; matched_rule = rule } else next

abbrev pub is_refused : Checked → Bool
is_refused passed = false
is_refused (refused e) = true

module _ {FilePath : Type 0} (py : Platform FilePath) where
  -- `PathGuard.validate` raises `PathPolicyError`.
  unfoldable pub escapes : FilePath → String → Bool
  escapes workspace value =
      let root = py.resolve workspace in
      let candidate = py.path value in
      not (
        py.is_relative_to
          (py.resolve (if py.is_absolute candidate then candidate else py.join root candidate))
          root)

  unfoldable pub is_sensitive : List String → String → Bool
  is_sensitive patterns value =
      any (λ pattern. py.fnmatch (py.casefold (py.file_name value)) (py.casefold pattern)) patterns

  -- The `try` block of `evaluate`.
  unfoldable pub check_network : NetworkPolicy → Members → Checked
  check_network network arguments =
      validate_arguments py network arguments
      >> refuse_if (str_eq network.access "allowlist" && not (has_url_members py arguments))
          no_target
      >> refuse_if (str_eq network.access "disabled") access_disabled

  unfoldable pub evaluate : PermissionPolicy FilePath → PermissionRequest → PermissionDecision
  evaluate policy request =
      let capabilities = request.capabilities in
      let files = any (is_of is_filesystem) capabilities in
      let risky = any (is_of is_risky) capabilities || request.legacy_requires_approval in
      return_if (any (λ c. not (is_some (parse_capability c))) capabilities) PermissionAction.deny
        Rule.capability_unknown
        (return_if
          (files && any (is_sensitive policy.sensitive_path_patterns) request.resource_paths)
          PermissionAction.deny Rule.filesystem_sensitive_path
          (return_if (files && any (escapes policy.workspace) request.resource_paths)
            PermissionAction.deny Rule.filesystem_outside_workspace
            (return_if
              (any (is_of is_network) capabilities
                && is_refused (check_network policy.network_policy request.arguments))
              PermissionAction.deny Rule.network_policy
              (return_if (str_eq policy.hitl_mode "always") PermissionAction.require_approval
                Rule.hitl_always
                (return_if (risky && str_eq policy.hitl_mode "never") PermissionAction.allow
                  Rule.hitl_never
                  (return_if risky PermissionAction.require_approval Rule.capability_sensitive (
                    return_if (is_nonempty capabilities) PermissionAction.allow
                      Rule.capability_read_only
                      (record {
                        action = PermissionAction.allow;
                        matched_rule = Rule.legacy_compatible;
                      }))))))))
