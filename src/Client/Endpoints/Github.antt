-- ===== src/Client/Endpoints/Github.antt =====
-- web/src/lib/api.ts: the calls `api.github`.
use tbd_dev.Prelude.{none, List}
use tbd_dev.Types.Projects.{GitHubRepo}
use tbd_dev.Client.Calls.{Call}

unfoldable pub list_repos : Call (Unit {0}) (List GitHubRepo)
list_repos = record { method = none; path = "/auth/github/repos"; body = none }
