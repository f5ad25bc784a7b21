-- ===== src/Client/Endpoints/Secrets.antt =====
-- web/src/lib/api.ts: the calls `api.secrets`.
use tbd_dev.Prelude.{String, none, some, ◌⧺◌}
use tbd_dev.Types.Projects.{Secret, SecretCreate, SecretListResponse}
use tbd_dev.Client.Calls.{Call}

unfoldable pub list : String → Call (Unit {0}) SecretListResponse
list project_id = record {
  method = none;
  path = "/projects/" ⧺ project_id ⧺ "/secrets";
  body = none;
}

unfoldable pub create : String → SecretCreate → Call SecretCreate Secret
create project_id body = record {
  method = some "POST";
  path = "/projects/" ⧺ project_id ⧺ "/secrets";
  body = some body;
}

unfoldable pub delete : String → String → Call (Unit {0}) (Unit {0})
delete project_id key = record {
  method = some "DELETE";
  path = "/projects/" ⧺ project_id ⧺ "/secrets/" ⧺ key;
  body = none;
}
