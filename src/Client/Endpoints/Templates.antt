-- ===== src/Client/Endpoints/Templates.antt =====
-- web/src/lib/api.ts: the calls `api.templates`.
use tbd_dev.Prelude.{String, none, some, ◌⧺◌}
use tbd_dev.Types.Projects.{
  Template, TemplateDeployRequest, TemplateDeployResponse, TemplateListResponse,
}
use tbd_dev.Client.Calls.{Call}

unfoldable pub list : Call (Unit {0}) TemplateListResponse
list = record { method = none; path = "/templates"; body = none }

unfoldable pub get : String → Call (Unit {0}) Template
get slug = record { method = none; path = "/templates/" ⧺ slug; body = none }

unfoldable pub deploy :
    String → TemplateDeployRequest → Call TemplateDeployRequest TemplateDeployResponse
deploy slug body = record {
  method = some "POST";
  path = "/templates/" ⧺ slug ⧺ "/deploy";
  body = some body;
}
