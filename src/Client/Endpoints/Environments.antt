-- ===== src/Client/Endpoints/Environments.antt =====
-- web/src/lib/api.ts: the calls `api.environments`.
use tbd_dev.Prelude.{String, none, some, ◌⧺◌}
use tbd_dev.Types.Projects.{Environment, EnvironmentCreate, EnvironmentListResponse}
use tbd_dev.Client.Calls.{Call}

unfoldable pub list : String → Call (Unit {0}) EnvironmentListResponse
list project_id = record {
  method = none;
  path = "/projects/" ⧺ project_id ⧺ "/environments";
  body = none;
}

unfoldable pub create : String → EnvironmentCreate → Call EnvironmentCreate Environment
create project_id body = record {
  method = some "POST";
  path = "/projects/" ⧺ project_id ⧺ "/environments";
  body = some body;
}

unfoldable pub delete : String → String → Call (Unit {0}) (Unit {0})
delete project_id env_id = record {
  method = some "DELETE";
  path = "/projects/" ⧺ project_id ⧺ "/environments/" ⧺ env_id;
  body = none;
}
