-- ===== src/Client/Endpoints/Projects.antt =====
-- web/src/lib/api.ts: the calls `api.projects`.
use tbd_dev.Prelude.{ℕ, String, none, some, ◌⧺◌}
use tbd_dev.Types.Projects.{
  ConnectRepoRequest, Project, ProjectCreate, ProjectListResponse, ProjectUpdate, Repo,
}
use tbd_dev.Client.Calls.{Call}

unfoldable pub list : (ℕ → String) → ℕ → ℕ → Call (Unit {0}) ProjectListResponse
list print skip limit = record {
  method = none;
  path = "/projects?skip=" ⧺ print skip ⧺ "&limit=" ⧺ print limit;
  body = none;
}

unfoldable pub get : String → Call (Unit {0}) Project
get id = record { method = none; path = "/projects/" ⧺ id; body = none }

unfoldable pub create : ProjectCreate → Call ProjectCreate Project
create body = record { method = some "POST"; path = "/projects"; body = some body }

unfoldable pub update : String → ProjectUpdate → Call ProjectUpdate Project
update id body = record { method = some "PATCH"; path = "/projects/" ⧺ id; body = some body }

unfoldable pub connect_repo : String → ConnectRepoRequest → Call ConnectRepoRequest Repo
connect_repo project_id body = record {
  method = some "POST";
  path = "/projects/" ⧺ project_id ⧺ "/repo";
  body = some body;
}

unfoldable pub disconnect_repo : String → Call (Unit {0}) (Unit {0})
disconnect_repo project_id = record {
  method = some "DELETE";
  path = "/projects/" ⧺ project_id ⧺ "/repo";
  body = none;
}

unfoldable pub delete : String → Call (Unit {0}) (Unit {0})
delete id = record { method = some "DELETE"; path = "/projects/" ⧺ id; body = none }
