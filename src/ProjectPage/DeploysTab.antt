-- ===== src/ProjectPage/DeploysTab.antt =====
-- web/src/app/dashboard/[projectId]/page.tsx, `DeploysTab`: the actions on a deploy. A handler is cut at
-- its request: what it does up to there, with the request that it sends, and what it does with the reply.
-- A handler sees the state of the last render, which a click is part of.
pub mod Flight
use tbd_dev.Prelude.{
  ℕ, String, Bool, true, false, Option, none, some, ◌||◌, ◌&&◌, not, if◌then◌else◌, truthy,
}
use tbd_dev.Types.Deploys.{
  Deploy, DeployStatus, queued, building, artifact_ready, provisioning, healthy, active, stopped,
  failed as failed_deploy, rolled_back, superseded,
}
use tbd_dev.Client.{Json, str, Reply, ok, api_error, failed}

pub data Action : Type 0 where
  rollback stop start promote destroy : Action

pub record Request : Type 0 where
  pub action : Action
  pub deploy_id : String

pub record DeploysTab : Type 0 where
  pub rolling : Option String
  pub stopping : Option String
  pub starting : Option String
  pub promoting : Option String
  pub destroy_target : Option Deploy
  pub destroying : Bool
  pub action_error : Json

abbrev pub first_tab : DeploysTab
first_tab = record {
  rolling = none;
  stopping = none;
  starting = none;
  promoting = none;
  destroy_target = none;
  destroying = false;
  action_error = str "";
}

abbrev pub request : Action → String → Option Request
request a deploy_id = some (record { action = a; deploy_id = deploy_id })

-- `handleRollback` up to its request. The guards read a text that may be null.
unfoldable pub start_rollback : String → DeploysTab → DeploysTab × Option Request
start_rollback deploy_id t =
    if truthy t.rolling
    then (t, none)
    else (record t { rolling = some deploy_id; action_error = str "" }, request rollback deploy_id)

unfoldable pub start_stop : String → DeploysTab → DeploysTab × Option Request
start_stop deploy_id t =
    if truthy t.stopping
    then (t, none)
    else (record t { stopping = some deploy_id; action_error = str "" }, request stop deploy_id)

unfoldable pub start_start : String → DeploysTab → DeploysTab × Option Request
start_start deploy_id t =
    if truthy t.starting
    then (t, none)
    else (record t { starting = some deploy_id; action_error = str "" }, request start deploy_id)

unfoldable pub start_promote : String → DeploysTab → DeploysTab × Option Request
start_promote deploy_id t =
    if truthy t.promoting
    then (t, none)
    else (record t { promoting = some deploy_id; action_error = str "" }, request promote deploy_id)

abbrev pub destroy_of : Option Deploy → DeploysTab → DeploysTab × Option Request
destroy_of none t = (t, none)
destroy_of (some d) t =
    if t.destroying
    then (t, none)
    else (record t { destroying = true; action_error = str "" }, request destroy d.id)

unfoldable pub start_destroy : DeploysTab → DeploysTab × Option Request
start_destroy t = destroy_of t.destroy_target t

-- The `catch` of the handlers: an exception that is no `ApiError` says nothing.
abbrev pub caught : Reply Deploy → DeploysTab → DeploysTab
caught (api_error status detail) t = record t { action_error = detail }
caught _ t = t

abbrev pub succeeded : Reply Deploy → Bool
succeeded (ok d) = true
succeeded _ = false

-- The rest of a handler; the Boolean says whether it calls `onUpdate`.
unfoldable pub finish_rollback : Reply Deploy → DeploysTab → DeploysTab × Bool
finish_rollback r t = (record (caught r t) { rolling = none }, succeeded r)

unfoldable pub finish_stop : Reply Deploy → DeploysTab → DeploysTab × Bool
finish_stop r t = (record (caught r t) { stopping = none }, succeeded r)

unfoldable pub finish_start : Reply Deploy → DeploysTab → DeploysTab × Bool
finish_start r t = (record (caught r t) { starting = none }, succeeded r)

unfoldable pub finish_promote : Reply Deploy → DeploysTab → DeploysTab × Bool
finish_promote r t = (record (caught r t) { promoting = none }, succeeded r)

abbrev closed_modal : Reply Deploy → DeploysTab → DeploysTab
closed_modal (ok d) t = record t { destroy_target = none }
closed_modal r t = caught r t

unfoldable pub finish_destroy : Reply Deploy → DeploysTab → DeploysTab × Bool
finish_destroy r t = (record (closed_modal r t) { destroying = false }, succeeded r)

-- The buttons of a deploy's row.
abbrev pub is_active : DeployStatus → Bool
is_active active = true
is_active healthy = true
is_active _ = false

abbrev pub is_superseded : DeployStatus → Bool
is_superseded superseded = true
is_superseded _ = false

abbrev pub is_stopped : DeployStatus → Bool
is_stopped stopped = true
is_stopped _ = false

abbrev pub is_terminal : DeployStatus → Bool
is_terminal rolled_back = true
is_terminal _ = false

unfoldable pub has_container : DeployStatus → Bool
has_container s = is_active s || is_superseded s

-- `canRollback`, `canStop`, `canStart`, `canPromote` and `canDestroy`
unfoldable pub offered : Action → Deploy → Bool
unfolding has_container
offered rollback d = is_active d.status && d.is_production
offered stop d = has_container d.status
offered start d = is_stopped d.status
offered promote d = has_container d.status && not d.is_production
offered destroy d = not (is_terminal d.status)
