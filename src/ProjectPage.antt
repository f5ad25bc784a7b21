-- ===== src/ProjectPage.antt =====
-- web/src/app/dashboard/[projectId]/page.tsx, `ProjectDetailPage`: loading the project, and polling
-- while a build or a deploy is under way.
pub mod Fetching
pub mod Polling
pub mod DeploysTab
pub mod Settings
pub mod BuildsTab
pub mod MembersTab
pub mod Overview
use tbd_dev.Prelude.{
  ℕ, suc, ◌+◌, String, Bool, true, false, Option, none, some, List, [], ◌∷◌, ◌||◌, ◌&&◌, not, ◌==◌,
  eqb, if◌then◌else◌, any, find, or_else, truthy_text, is_some,
}
use tbd_dev.Types.Projects.{EnvType, production, staging, preview, Environment, Project}
use tbd_dev.Types.Deploys.{
  Build, Deploy, DeployStatus, queued, building, artifact_ready, provisioning, healthy, active,
  stopped, failed, rolled_back, superseded,
}
use tbd_dev.Client.{Reply, ok, api_error}

pub data PollingStatus : Type 0 where
  idle polling : PollingStatus

-- What `Promise.all` of the four requests returns.
pub record Snapshot : Type 0 where
  pub project : Project
  pub environments : List Environment
  pub builds : List Build
  pub deploys : List Deploy

pub record Page : Type 0 where
  pub project : Option Project
  pub environments : List Environment
  pub builds : List Build
  pub deploys : List Deploy
  -- whether `pollingRef` holds an interval
  pub interval : Bool
  pub last_status : PollingStatus
  -- the number of `fetchAll` calls so far; the last one owns the controller in `abortRef`, and
  -- those of the calls before it are aborted
  pub fetches : ℕ
  pub loading : Bool
  pub error : String
  -- whether the last run of the polling effect returned a cleanup
  pub has_cleanup : Bool

abbrev pub first_page : Page
first_page = record {
  project = none;
  environments = [];
  builds = [];
  deploys = [];
  interval = false;
  last_status = idle;
  fetches = 0;
  loading = true;
  error = "";
  has_cleanup = false;
}

unfoldable pub build_active : Build → Bool
build_active b = b.status == "building" || b.status == "queued"

abbrev pub in_progress : DeployStatus → Bool
in_progress queued = true
in_progress building = true
in_progress artifact_ready = true
in_progress provisioning = true
in_progress healthy = true
in_progress _ = false

unfoldable pub should_poll : List Build → List Deploy → Bool
unfolding build_active
should_poll builds deploys =
    any build_active builds || any (λ (d : Deploy). in_progress d.status) deploys

abbrev pub same_status : PollingStatus → PollingStatus → Bool
same_status idle idle = true
same_status polling polling = true
same_status _ _ = false

-- The polling effect's run after `builds` and `deploys` are set: the cleanup of its last run, if that
-- returned one, then its body, which returns early when the status is the last one.
unfoldable pub polling_effect : Page → Page
polling_effect p =
    let cleaned = if p.has_cleanup then record p { interval = false; has_cleanup = false } else p in
    let poll = should_poll p.builds p.deploys in
    let next_status = if poll then polling else idle in
    if same_status next_status p.last_status
    then cleaned
    else record cleaned { interval = poll; last_status = next_status; has_cleanup = true }

-- `fetchAll` up to its requests; the result is the call's number.
unfoldable pub start_fetch : Page → Page
start_fetch p = record p { fetches = p.fetches + 1 }

-- A tick of the interval calls `fetchAll`.
unfoldable pub tick : Page → Page
unfolding start_fetch
tick p = if p.interval then start_fetch p else p

unfoldable pub fetch_error : Reply Snapshot → String
fetch_error (api_error status detail) =
    if eqb status 404 then "Project not found" else "Failed to load project"
fetch_error _ = "Failed to load project"

-- The four `set` calls on an answer, and the end of the loading state.
abbrev pub show : Snapshot → Page → Page
show s p = record p {
  project = some s.project;
  environments = s.environments;
  builds = s.builds;
  deploys = s.deploys;
  loading = false;
}

-- The rest of the call number `k`, counted from 1: a call that a later one aborted only ends the
-- loading state. New builds and deploys make the polling effect run.
unfoldable pub finish_fetch : ℕ → Reply Snapshot → Page → Page
unfolding polling_effect fetch_error
finish_fetch k reply p =
    if eqb k p.fetches
    then elim reply [
      | ok s ↦ polling_effect (show s p)
      | other ↦ record p { error = fetch_error other; loading = false }
    ]
    else record p { loading = false }

pub data View : Type 0 where
  loading_view : View
  error_view : String → View
  project_view : Project → View

unfoldable pub view : Page → View
view p = if p.loading then loading_view else elim p.project [
  | none ↦ error_view (if truthy_text p.error then p.error else "Project not found")
  | some proj ↦ if truthy_text p.error then error_view p.error else project_view proj
]

abbrev is_production : EnvType → Bool
is_production production = true
is_production _ = false

abbrev is_live : DeployStatus → Bool
is_live active = true
is_live healthy = true
is_live _ = false

abbrev in_env : Option Environment → Deploy → Bool
in_env none d = true
in_env (some e) d = d.env_id == e.id

-- The address that the page links to: the project's own, else that of the first live deploy, in the
-- production environment if there is one.
unfoldable pub production_url : Project → List Environment → List Deploy → Option String
production_url project environments deploys =
    let prod_env = find (λ (e : Environment). is_production e.type) environments in
    let latest = find (λ (d : Deploy). is_live d.status && in_env prod_env d) deploys in
    elim project.production_url [
      | some url ↦ some url
      | none ↦ elim latest [ none ↦ none | some d ↦ d.url ]
    ]
