-- ===== src/Pipeline/Progress.antt =====
-- What the pipeline shows for each status.
use tbd_dev.Prelude.{ℕ, zero, suc, ◌-◌, List, [], ◌∷◌, ◌++◌, ◌≡◌, refl, map, if◌then◌else◌}
use tbd_dev.Types.Deploys.{
  DeployStatus, queued, building, artifact_ready, provisioning, healthy, active, stopped, failed,
  rolled_back, superseded,
}
use tbd_dev.Pipeline.{
  pipeline_steps, StepState, completed, current, pending, is_terminal, get_step_state,
  effective_status,
}

-- The states of the steps, from left to right.
abbrev shown : DeployStatus → List StepState
shown status =
    map (λ (step : DeployStatus). get_step_state step (effective_status status)) pipeline_steps

-- How far a deploy with this status has come.
abbrev position : DeployStatus → ℕ
position queued = 0
position building = 1
position artifact_ready = 2
position provisioning = 3
position healthy = 4
position _ = 5

abbrev replicate : ℕ → StepState → List StepState
replicate zero s = []
replicate (suc n) s = s ∷ replicate n s

-- A deploy that has not failed, been rolled back or been stopped shows the steps before its own as
-- completed, its own as current and those behind it as pending; a superseded deploy is shown as an
-- active one. For the other three every step is pending.
pub get_step_state_lem :
    (status : DeployStatus)
    → map (λ (step : DeployStatus). get_step_state step (effective_status status)) pipeline_steps
      ≡ (if is_terminal status
          then replicate 6 pending
          else replicate (position status) completed
            ++ current ∷ replicate (5 - position status) pending)
unfolding get_step_state effective_status is_terminal
get_step_state_lem queued = refl
get_step_state_lem building = refl
get_step_state_lem artifact_ready = refl
get_step_state_lem provisioning = refl
get_step_state_lem healthy = refl
get_step_state_lem active = refl
get_step_state_lem stopped = refl
get_step_state_lem failed = refl
get_step_state_lem rolled_back = refl
get_step_state_lem superseded = refl
