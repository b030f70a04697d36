-- ===== src/Tests/PolicyTests.antt =====
-- A permission decision of src/axiom/policy/permissions.py, and the executions of
-- src/axiom/runtime/supervisor.py, at concrete inputs.
use axiom_agent.Prelude.{
  String, ◌≡◌, ◌⊎◌, ◌++◌, refl, true, false, ◌&&◌, not, none, some, [], ◌∷◌, str_eq, contains, ltb,
  if◌then◌else◌,
}
use axiom_agent.Dict.{delete, lookup}
use axiom_agent.Dependency.Category.{occurs_in}
use axiom_agent.Policy.Platform.{Address, Platform, string, object, end, member}
use axiom_agent.Policy.Network.{
  normalized_hosts, host_of, reject_all, check_addresses, validate_url, url_values, has_url,
  validate_urls, validate_arguments,
}
use axiom_agent.Policy.Permissions.{
  PermissionPolicy, PermissionRequest, PermissionAction, Rule, parse_capability, escapes,
  is_sensitive, check_network, evaluate,
}
use axiom_agent.Supervisor.{
  ExecutionHandle, Moment, Supervisor, CancellationStatus, register, remove_done, done_ids,
  delete_all, request_cancel, request_cancel_many,
}
use axiom_agent.Supervisor.Registry.{live, register_outcome}
use axiom_agent.Supervisor.Draining.{drain}
use axiom_agent.Supervisor.Cancelling.{
  count_buckets, request_cancel_many-count, request_cancel_outcome,
}

abbrev public_address : Address
public_address = record {
  is_private = false;
  is_loopback = false;
  is_link_local = false;
  is_multicast = false;
  is_reserved = false;
  is_unspecified = false;
}

-- Every URL names the host "docs", and every path is a name in the workspace.
abbrev py : Platform String
py = record {
  casefold = λ s. s;
  strip = λ s. s;
  rstrip_dots = λ s. s;
  ends_with = λ s t. false;
  urlparse =
      λ s. record { scheme = "https"; username = none; password = none; hostname = some "docs" };
  ip_address = λ s. none;
  getaddrinfo = λ s. some (public_address ∷ []);
  path = λ s. s;
  is_absolute = λ s. false;
  join = λ root s. root;
  resolve = λ s. s;
  is_relative_to = λ s root. str_eq s root;
  file_name = λ s. s;
  fnmatch = str_eq;
}

abbrev workspace_policy : PermissionPolicy String
workspace_policy = record {
  workspace = "/work";
  hitl_mode = "auto";
  network_policy = record {
    access = "allowlist";
    allowed_hosts = "docs" ∷ [];
    deny_private_addresses = true;
  };
  sensitive_path_patterns = ".env" ∷ [];
}

abbrev fetch : PermissionRequest
fetch = record {
  capabilities = "network.read" ∷ "filesystem.read" ∷ [];
  arguments = member "url" (string "https://docs/a") end;
  resource_paths = "notes" ∷ [];
  legacy_requires_approval = false;
}

secret_denied :
    evaluate py workspace_policy (record fetch { resource_paths = ".env" ∷ [] })
    ≡ record { action = PermissionAction.deny; matched_rule = Rule.filesystem_sensitive_path }
unfolding evaluate parse_capability is_sensitive
secret_denied = refl

-- A listed URL under a key that is not "url" at the top is checked, but counts as no target.
nested_url_denied :
    evaluate py workspace_policy (record fetch {
      arguments = member "request" (object (member "url" (string "https://docs/a") end)) end;
    })
    ≡ record { action = PermissionAction.deny; matched_rule = Rule.network_policy }
unfolding evaluate parse_capability is_sensitive escapes check_network validate_arguments
    validate_urls validate_url host_of normalized_hosts check_addresses reject_all url_values
    has_url occurs_in
nested_url_denied = refl

abbrev handle : ExecutionHandle
handle = record {
  object = 1;
  run_id = "run";
  asyncio_task = 4;
  event_loop = 0;
  cancellation_requested = false;
}

-- The tasks below 3 are done.
abbrev now : Moment
now = record { done = λ t. ltb t 3; is_closed = λ _. false; accepts = λ _. true }

abbrev one_run : Supervisor
one_run = record { handles = ("run", handle) ∷ []; scheduled = [] }

twice_refused : register now (record handle { object = 2; asyncio_task = 5 }) one_run ≡ none
unfolding register lookup
twice_refused = refl

register_outcome_example :
    ((register now handle one_run ≡ none)
      × ((old : ExecutionHandle) × (live now "run" one_run ≡ some old)))
    ⊎ ((s' : Supervisor) × (register now handle one_run ≡ some s')
        × (live now "run" one_run ≡ none)
        × ((k : String)
            → lookup k s'.handles
              ≡ (if str_eq "run" k then some handle else lookup k one_run.handles)))
register_outcome_example = register_outcome now handle one_run

kept_run : lookup "run" (remove_done now one_run).handles ≡ some handle
unfolding remove_done done_ids delete_all lookup
kept_run = refl

request_cancel_many-count_example :
    count_buckets "run"
      (request_cancel_many (λ _. now) ("run" ∷ "other" ∷ "run" ∷ []) one_run).0.buckets
    ≡ 1
unfolding contains
request_cancel_many-count_example =
    request_cancel_many-count (λ _. now) ("run" ∷ "other" ∷ "run" ∷ []) one_run "run"

request_cancel_outcome_example :
    let (status, s') = request_cancel now "run" one_run in
    ((h : ExecutionHandle) × (live now "run" one_run ≡ some h)
      × ((not (now.is_closed h.event_loop) && now.accepts h.event_loop) ≡ true)
      × (status ≡ CancellationStatus.signalled)
      × (s'.scheduled ≡ one_run.scheduled ++ h.asyncio_task ∷ [])
      × (live now "run" s' ≡ some (record h { cancellation_requested = true })))
    ⊎ ((h : ExecutionHandle) × (live now "run" one_run ≡ some h)
        × ((not (now.is_closed h.event_loop) && now.accepts h.event_loop) ≡ false)
        × (status ≡ CancellationStatus.loop_unavailable)
        × (s'.scheduled ≡ one_run.scheduled)
        × (live now "run" s' ≡ some (record h { cancellation_requested = true })))
    ⊎ ((h : ExecutionHandle) × (lookup "run" one_run.handles ≡ some h)
        × (now.done h.asyncio_task ≡ true)
        × (status ≡ CancellationStatus.already_done)
        × (s'.scheduled ≡ one_run.scheduled)
        × (lookup "run" s'.handles ≡ none))
    ⊎ ((lookup "run" one_run.handles ≡ none)
        × (status ≡ CancellationStatus.not_active)
        × (s' ≡ one_run))
request_cancel_outcome_example = request_cancel_outcome now "run" one_run

abbrev later : Moment
later = record now { done = λ t. ltb t 5 }

drained_later : (drain now (later ∷ []) one_run).0 ≡ true
unfolding drain remove_done done_ids delete_all delete
drained_later = refl
