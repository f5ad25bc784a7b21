-- ===== src/Client/Endpoints/Members.antt =====
-- web/src/lib/api.ts: the calls `api.projects.members`.
use tbd_dev.Prelude.{String, none, some, ◌⧺◌}
use tbd_dev.Types.Projects.{ProjectMember, ProjectMemberAdd, ProjectMemberListResponse}
use tbd_dev.Client.Calls.{Call}

unfoldable pub list : String → Call (Unit {0}) ProjectMemberListResponse
list project_id = record {
  method = none;
  path = "/projects/" ⧺ project_id ⧺ "/members";
  body = none;
}

unfoldable pub add : String → ProjectMemberAdd → Call ProjectMemberAdd ProjectMember
add project_id body = record {
  method = some "POST";
  path = "/projects/" ⧺ project_id ⧺ "/members";
  body = some body;
}

unfoldable pub remove : String → String → Call (Unit {0}) (Unit {0})
remove project_id user_id = record {
  method = some "DELETE";
  path = "/projects/" ⧺ project_id ⧺ "/members/" ⧺ user_id;
  body = none;
}
