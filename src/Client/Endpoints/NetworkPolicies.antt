-- ===== src/Client/Endpoints/NetworkPolicies.antt =====
-- web/src/lib/api.ts: the calls `api.admin.networkPolicies`.
use tbd_dev.Prelude.{ℕ, String, Option, none, some, List, [], ◌⧺◌, or_else}
use tbd_dev.Types.Platform.{
  NetworkPolicy, NetworkPolicyCreate, NetworkPolicyListResponse, NetworkPolicyUpdate,
}
use tbd_dev.Client.Calls.{Call, set_number, set_text}

pub record NetworkPoliciesParams : Type 0 where
  pub skip : Option ℕ
  pub limit : Option ℕ
  pub project_id : Option String
  pub direction : Option String

abbrev no_params : NetworkPoliciesParams
no_params = record { skip = none; limit = none; project_id = none; direction = none }

-- The entries of the query string.
unfoldable pub list_query : (ℕ → String) → Option NetworkPoliciesParams → List (String × String)
unfolding set_number set_text
list_query print given =
    let p = or_else given no_params in
    let with_skip = set_number print "skip" p.skip [] in
    let with_limit = set_number print "limit" p.limit with_skip in
    let with_project_id = set_text "project_id" p.project_id with_limit in
    set_text "direction" p.direction with_project_id

unfoldable pub list :
    (ℕ → String)
    → (List (String × String) → String)
    → Option NetworkPoliciesParams
    → Call (Unit {0}) NetworkPolicyListResponse
unfolding list_query
list print to_query given = record {
  method = none;
  path = "/admin/network-policies?" ⧺ to_query (list_query print given);
  body = none;
}

unfoldable pub create : NetworkPolicyCreate → Call NetworkPolicyCreate NetworkPolicy
create body = record { method = some "POST"; path = "/admin/network-policies"; body = some body }

unfoldable pub update : String → NetworkPolicyUpdate → Call NetworkPolicyUpdate NetworkPolicy
update policy_id body = record {
  method = some "PATCH";
  path = "/admin/network-policies/" ⧺ policy_id;
  body = some body;
}

unfoldable pub delete : String → Call (Unit {0}) (Unit {0})
delete policy_id = record {
  method = some "DELETE";
  path = "/admin/network-policies/" ⧺ policy_id;
  body = none;
}
