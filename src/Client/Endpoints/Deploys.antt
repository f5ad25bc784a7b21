-- ===== src/Client/Endpoints/Deploys.antt =====
-- web/src/lib/api.ts: the calls `api.deploys`.
use tbd_dev.Prelude.{ℕ, String, Option, none, some, ◌⧺◌}
use tbd_dev.Types.Deploys.{Deploy, DeployListResponse, DeployLogsResponse, QueueStatus}
use tbd_dev.Client.Calls.{Call}

pub record RollbackReason : Type 0 where
  pub reason : Option String

unfoldable pub list : (ℕ → String) → String → ℕ → ℕ → Call (Unit {0}) DeployListResponse
list print project_id skip limit = record {
  method = none;
  path = "/projects/" ⧺ project_id ⧺ "/deploys?skip=" ⧺ print skip ⧺ "&limit=" ⧺ print limit;
  body = none;
}

unfoldable pub logs : String → String → Call (Unit {0}) DeployLogsResponse
logs project_id deploy_id = record {
  method = none;
  path = "/projects/" ⧺ project_id ⧺ "/deploys/" ⧺ deploy_id ⧺ "/logs";
  body = none;
}

unfoldable pub logs_stream_url : String → String → String → String
logs_stream_url api_base project_id deploy_id =
    api_base ⧺ "/projects/" ⧺ project_id ⧺ "/deploys/" ⧺ deploy_id ⧺ "/logs/stream"

unfoldable pub rollback : String → Option String → Call RollbackReason Deploy
rollback deploy_id reason = record {
  method = some "POST";
  path = "/deploys/" ⧺ deploy_id ⧺ "/rollback";
  body = some (record { reason = reason });
}

unfoldable pub promote : String → Call (Unit {0}) Deploy
promote deploy_id = record {
  method = some "POST";
  path = "/deploys/" ⧺ deploy_id ⧺ "/promote";
  body = none;
}

unfoldable pub destroy : String → Call (Unit {0}) Deploy
destroy deploy_id = record { method = some "DELETE"; path = "/deploys/" ⧺ deploy_id; body = none }

unfoldable pub stop : String → Call (Unit {0}) Deploy
stop deploy_id = record {
  method = some "POST";
  path = "/deploys/" ⧺ deploy_id ⧺ "/stop";
  body = none;
}

unfoldable pub start : String → Call (Unit {0}) Deploy
start deploy_id = record {
  method = some "POST";
  path = "/deploys/" ⧺ deploy_id ⧺ "/start";
  body = none;
}

unfoldable pub queue_status : String → String → Call (Unit {0}) QueueStatus
queue_status project_id env_id = record {
  method = none;
  path = "/projects/" ⧺ project_id ⧺ "/environments/" ⧺ env_id ⧺ "/queue";
  body = none;
}
