-- ===== src/Client/Endpoints/Audit.antt =====
-- web/src/lib/api.ts: the calls `api.audit`.
use tbd_dev.Prelude.{ℕ, String, Option, none, List, [], ◌⧺◌, or_else}
use tbd_dev.Types.Platform.{AuditLogListResponse}
use tbd_dev.Client.Calls.{Call, set_number, set_text}

pub record AuditParams : Type 0 where
  pub skip : Option ℕ
  pub limit : Option ℕ
  pub action : Option String
  pub target_type : Option String
  pub actor_user_id : Option String
  pub since : Option String

abbrev no_params : AuditParams
no_params = record {
  skip = none;
  limit = none;
  action = none;
  target_type = none;
  actor_user_id = none;
  since = none;
}

-- The entries of the query string.
unfoldable pub list_query : (ℕ → String) → Option AuditParams → List (String × String)
unfolding set_number set_text
list_query print given =
    let p = or_else given no_params in
    let with_skip = set_number print "skip" p.skip [] in
    let with_limit = set_number print "limit" p.limit with_skip in
    let with_action = set_text "action" p.action with_limit in
    let with_target_type = set_text "target_type" p.target_type with_action in
    let with_actor_user_id = set_text "actor_user_id" p.actor_user_id with_target_type in
    set_text "since" p.since with_actor_user_id

unfoldable pub list :
    (ℕ → String)
    → (List (String × String) → String)
    → Option AuditParams
    → Call (Unit {0}) AuditLogListResponse
unfolding list_query
list print to_query given = record {
  method = none;
  path = "/audits?" ⧺ to_query (list_query print given);
  body = none;
}
