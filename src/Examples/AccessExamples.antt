-- ===== src/Examples/AccessExamples.antt =====
-- The theorems about the layouts, the sidebar and the pipeline, applied.
use tbd_dev.Prelude.{false, some, [], ◌∷◌, ◌≡◌, All, map}
use tbd_dev.Types.Accounts.{jas_staff}
use tbd_dev.Types.Deploys.{DeployStatus, artifact_ready}
use tbd_dev.Access.{shell, NavItem, layout_of, visible_items}
use tbd_dev.Access.Navigation.{visible_items-layout_of}
use tbd_dev.Pipeline.{
  pipeline_steps, get_step_state, effective_status, is_terminal, completed, current, pending,
}
use tbd_dev.Pipeline.Progress.{get_step_state_lem}
use tbd_dev.Examples.Data.{ada}

visible_items-layout_of_example :
    All
      (λ (item : NavItem). (layout_of item.href false (some ada)).screen ≡ shell)
      (visible_items jas_staff)
visible_items-layout_of_example = visible_items-layout_of ada

get_step_state_lem_example :
    map
      (λ (step : DeployStatus). get_step_state step (effective_status artifact_ready))
      pipeline_steps
    ≡ completed ∷ completed ∷ current ∷ pending ∷ pending ∷ pending ∷ []
unfolding is_terminal
get_step_state_lem_example = get_step_state_lem artifact_ready
