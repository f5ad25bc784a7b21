-- ===== src/ProjectPage/BuildsTab.antt =====
-- web/src/app/dashboard/[projectId]/page.tsx, `BuildsTab`: which logs are on view, and the handlers, each
-- cut at its request. The two streams are `useLogStream`'s, of the module LogStream.
pub mod InOrder
use tbd_dev.Prelude.{
  ℕ, String, Bool, true, false, Option, none, some, List, [], ◌∷◌, ◌||◌, not, ◌==◌, if◌then◌else◌,
  find, any, truthy,
}
use tbd_dev.Types.Deploys.{
  Build, BuildLogsResponse, Deploy, DeployListResponse, DeployLogsResponse, DeployTriggerResponse,
}
use tbd_dev.Client.{Json, str, Reply, ok, api_error, failed}
use tbd_dev.Client.Endpoints.Builds as Builds
use tbd_dev.Client.Endpoints.Deploys as Deploys
use tbd_dev.ProjectPage.{build_active, in_progress}

pub record BuildsTab : Type 0 where
  pub viewing_logs : Option String
  pub rest_logs : Option BuildLogsResponse
  pub loading_logs : Bool
  pub rebuilding : Bool
  pub rebuild_error : Json
  pub deploying : Option String
  pub deploy_error : Json
  pub deploy_logs : Option DeployLogsResponse
  pub linked_deploy_id : Option String

abbrev pub first_tab : BuildsTab
first_tab = record {
  viewing_logs = none;
  rest_logs = none;
  loading_logs = false;
  rebuilding = false;
  rebuild_error = str "";
  deploying = none;
  deploy_error = str "";
  deploy_logs = none;
  linked_deploy_id = none;
}

unfoldable pub has_active_build : List Build → Bool
unfolding build_active
has_active_build builds = any build_active builds

abbrev pub build_of : List Build → Option String → Option Build
build_of builds none = none
build_of builds (some id) = find (λ (b : Build). b.id == id) builds

-- `viewedBuild`
unfoldable pub viewed_build : List Build → BuildsTab → Option Build
viewed_build builds t = if truthy t.viewing_logs then build_of builds t.viewing_logs else none

abbrev pub running : Option Build → Bool
running none = false
running (some b) = b.status == "building" || b.status == "queued"

-- `viewedBuildRunning`
unfoldable pub viewed_build_running : List Build → BuildsTab → Bool
unfolding viewed_build
viewed_build_running builds t = running (viewed_build builds t)

abbrev stream_of : (String → String) → Option String → Bool → Option String
stream_of url none runs = none
stream_of url (some id) runs = if runs then some (url id) else none

-- `buildStreamUrl`
unfoldable pub build_stream_url : String → String → List Build → BuildsTab → Option String
unfolding viewed_build_running
build_stream_url api_base project_id builds t =
    if truthy t.viewing_logs
    then stream_of (Builds.logs_stream_url api_base project_id) t.viewing_logs
        (viewed_build_running builds t)
    else none

-- `a ?? b`
abbrev pub or_some : Option String → Option String → Option String
or_some none b = b
or_some (some a) b = some a

abbrev pub rest_text : Option BuildLogsResponse → Option String
rest_text none = none
rest_text (some r) = r.logs

-- `displayBuildLogs`, from the stream's logs.
unfoldable pub display_build_logs : Option String → List Build → BuildsTab → Option String
unfolding viewed_build_running
display_build_logs stream builds t =
    if viewed_build_running builds t
    then or_some stream (rest_text t.rest_logs)
    else rest_text t.rest_logs

-- The effect on `viewingLogs`: none for no request.
unfoldable pub linked_effect : BuildsTab → BuildsTab × Bool
linked_effect t =
    if truthy t.viewing_logs
    then (t, true)
    else (record t { linked_deploy_id = none; deploy_logs = none }, false)

abbrev linked : Option Deploy → BuildsTab → BuildsTab
linked none t = t
linked (some d) t = record t { linked_deploy_id = some d.id }

unfoldable pub finish_linked : Reply DeployListResponse → BuildsTab → BuildsTab
finish_linked (ok res) t = linked (find (λ (d : Deploy). in_progress d.status) res.items) t
finish_linked _ t = t

-- `deployStreamUrl`
unfoldable pub deploy_stream_url : String → String → BuildsTab → Option String
deploy_stream_url api_base project_id t =
    if truthy t.linked_deploy_id
    then stream_of (Deploys.logs_stream_url api_base project_id) t.linked_deploy_id true
    else none

-- The effect that asks once for the logs of a deploy whose stream is closed.
unfoldable pub asks_deploy_logs : Bool → BuildsTab → Bool
asks_deploy_logs streaming t = if truthy t.linked_deploy_id then not streaming else false

unfoldable pub finish_deploy_logs : Reply DeployLogsResponse → BuildsTab → BuildsTab
finish_deploy_logs (ok r) t = record t { deploy_logs = some r }
finish_deploy_logs _ t = t

abbrev deploy_text : Option DeployLogsResponse → Option String
deploy_text none = none
deploy_text (some r) = r.logs

-- `displayDeployLogs`
unfoldable pub display_deploy_logs : Option String → BuildsTab → Option String
display_deploy_logs stream t = or_some stream (deploy_text t.deploy_logs)

abbrev pub is_viewed : Option String → String → Bool
is_viewed none id = false
is_viewed (some v) id = v == id

-- `handleViewLogs` up to its request, which is for the build's logs.
unfoldable pub start_view_logs : String → BuildsTab → BuildsTab × Option String
start_view_logs build_id t =
    if is_viewed t.viewing_logs build_id
    then (
      record t {
        viewing_logs = none;
        rest_logs = none;
        linked_deploy_id = none;
        deploy_logs = none;
      },
      none,
    )
    else (record t { viewing_logs = some build_id; loading_logs = true }, some build_id)

abbrev pub logs_of : Reply BuildLogsResponse → Option BuildLogsResponse
logs_of (ok r) = some r
logs_of _ = none

unfoldable pub finish_view_logs : Reply BuildLogsResponse → BuildsTab → BuildsTab
finish_view_logs r t = record t { rest_logs = logs_of r; loading_logs = false }

-- `handleRebuild`
unfoldable pub start_rebuild : BuildsTab → BuildsTab
start_rebuild t = record t { rebuilding = true; rebuild_error = str "" }

unfoldable pub finish_rebuild : Reply Build → BuildsTab → BuildsTab × Bool
finish_rebuild (ok b) t = (record t { rebuilding = false }, true)
finish_rebuild (api_error status detail) t =
    (record t { rebuild_error = detail; rebuilding = false }, false)
finish_rebuild failed t =
    (record t { rebuild_error = str "Failed to trigger rebuild"; rebuilding = false }, false)

-- `handleDeployBuild`
unfoldable pub start_deploy_build : String → BuildsTab → BuildsTab
start_deploy_build build_id t = record t { deploying = some build_id; deploy_error = str "" }

unfoldable pub finish_deploy_build : Reply DeployTriggerResponse → BuildsTab → BuildsTab × Bool
finish_deploy_build (ok d) t = (record t { deploying = none }, true)
finish_deploy_build (api_error status detail) t =
    (record t { deploy_error = detail; deploying = none }, false)
finish_deploy_build failed t =
    (record t { deploy_error = str "Failed to trigger deploy"; deploying = none }, false)
