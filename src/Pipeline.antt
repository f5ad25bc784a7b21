-- ===== src/Pipeline.antt =====
-- web/src/components/deploy-pipeline.tsx: the steps of a deploy as the pipeline shows them.
pub mod Progress
use tbd_dev.Prelude.{
  ℕ, suc, String, Bool, true, false, Option, none, some, List, [], ◌∷◌, ltb, eqb, if◌then◌else◌,
  any, is_some, not,
}
use tbd_dev.Types.Deploys.{
  DeployStatus, queued, building, artifact_ready, provisioning, healthy, active, stopped, failed,
  rolled_back, superseded,
}

abbrev number : DeployStatus → ℕ
number queued = 0
number building = 1
number artifact_ready = 2
number provisioning = 3
number healthy = 4
number active = 5
number stopped = 6
number failed = 7
number rolled_back = 8
number superseded = 9

-- `===` on statuses
unfoldable pub status_eqb : DeployStatus → DeployStatus → Bool
status_eqb s t = eqb (number s) (number t)

abbrev pub pipeline_steps : List DeployStatus
pipeline_steps = queued ∷ building ∷ artifact_ready ∷ provisioning ∷ healthy ∷ active ∷ []

abbrev pub terminal_states : List DeployStatus
terminal_states = failed ∷ rolled_back ∷ stopped ∷ []

unfoldable pub step_label : DeployStatus → String
step_label queued = "Queued"
step_label building = "Building"
step_label artifact_ready = "Artifact Ready"
step_label provisioning = "Provisioning"
step_label healthy = "Healthy"
step_label active = "Active"
step_label failed = "Failed"
step_label rolled_back = "Rolled Back"
step_label superseded = "Active"
step_label stopped = "Stopped"

-- `list.indexOf(s)`, none for -1
unfoldable pub index_of : DeployStatus → List DeployStatus → Option ℕ
unfolding status_eqb
index_of s [] = none
index_of s (t ∷ ts) =
    let rest = index_of s ts in
    if status_eqb t s then some 0 else elim rest [ none ↦ none | some i ↦ some (suc i) ]

pub data StepState : Type 0 where
  completed current pending failed_step : StepState

-- The comparison of the two positions; -1 is less than every position.
abbrev compared : Option ℕ → Option ℕ → StepState
compared step none = pending
compared none (some c) = completed
compared (some i) (some c) = if ltb i c then completed else if eqb i c then current else pending

unfoldable pub is_terminal : DeployStatus → Bool
unfolding status_eqb
is_terminal status = any (status_eqb status) terminal_states

-- `getStepState`
unfoldable pub get_step_state : DeployStatus → DeployStatus → StepState
unfolding is_terminal index_of status_eqb
get_step_state step status =
    let rest = compared (index_of step pipeline_steps) (index_of status pipeline_steps) in
    if is_terminal status
    then if not (is_some (index_of status pipeline_steps))
      then if status_eqb step status then failed_step else pending
      else rest
    else rest

-- `effectiveStatus`
unfoldable pub effective_status : DeployStatus → DeployStatus
effective_status superseded = active
effective_status status = status
