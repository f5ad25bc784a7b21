-- ===== src/Client/Endpoints/Builds.antt =====
-- web/src/lib/api.ts: the calls `api.builds`.
use tbd_dev.Prelude.{ℕ, String, none, some, ◌⧺◌}
use tbd_dev.Types.Deploys.{Build, BuildListResponse, BuildLogsResponse, DeployTriggerResponse}
use tbd_dev.Client.Calls.{Call}

pub record DeployTarget : Type 0 where
  pub env : String

unfoldable pub list : (ℕ → String) → String → ℕ → ℕ → Call (Unit {0}) BuildListResponse
list print project_id skip limit = record {
  method = none;
  path = "/projects/" ⧺ project_id ⧺ "/builds?skip=" ⧺ print skip ⧺ "&limit=" ⧺ print limit;
  body = none;
}

unfoldable pub get : String → String → Call (Unit {0}) Build
get project_id build_id = record {
  method = none;
  path = "/projects/" ⧺ project_id ⧺ "/builds/" ⧺ build_id;
  body = none;
}

unfoldable pub logs : String → String → Call (Unit {0}) BuildLogsResponse
logs project_id build_id = record {
  method = none;
  path = "/projects/" ⧺ project_id ⧺ "/builds/" ⧺ build_id ⧺ "/logs";
  body = none;
}

unfoldable pub logs_stream_url : String → String → String → String
logs_stream_url api_base project_id build_id =
    api_base ⧺ "/projects/" ⧺ project_id ⧺ "/builds/" ⧺ build_id ⧺ "/logs/stream"

unfoldable pub trigger : String → Call (Unit {0}) Build
trigger project_id = record {
  method = some "POST";
  path = "/projects/" ⧺ project_id ⧺ "/builds/trigger";
  body = none;
}

unfoldable pub deploy : String → String → String → Call DeployTarget DeployTriggerResponse
deploy project_id build_id env = record {
  method = some "POST";
  path = "/projects/" ⧺ project_id ⧺ "/builds/" ⧺ build_id ⧺ "/deploy";
  body = some (record { env = env });
}
