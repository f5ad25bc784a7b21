-- ===== src/ProjectPage/BuildsTab/InOrder.antt =====
-- The logs on view, when the replies come in the order of their requests.
use tbd_dev.Prelude.{
  String, Option, none, some, List, [], ◌∷◌, ◌++◌, ◌≡◌, refl, arith, Bool-cases, inl, inr, ap,
  subst,
}
use tbd_dev.Types.Deploys.{
  Build, BuildLogsResponse, DeployListResponse, DeployLogsResponse, DeployTriggerResponse,
}
use tbd_dev.Client.{Reply}
use tbd_dev.ProjectPage.BuildsTab.{
  BuildsTab, first_tab, is_viewed, logs_of, start_view_logs, finish_view_logs, linked_effect,
  finish_linked, finish_deploy_logs, start_rebuild, finish_rebuild, start_deploy_build,
  finish_deploy_build,
}

-- The requests for logs that wait, the earliest first.
abbrev pub queued : Option String → List String → List String
queued none waiting = waiting
queued (some id) waiting = waiting ++ id ∷ []

abbrev pub last : List String → Option String
last [] = none
last (id ∷ []) = some id
last (id ∷ next ∷ rest) = last (next ∷ rest)

-- Everything else that changes the tab.
pub data Other : Type 0 where
  effect_ran rebuild_started : Other
  linked_replied : Reply DeployListResponse → Other
  deploy_replied : Reply DeployLogsResponse → Other
  rebuild_replied : Reply Build → Other
  deploy_started : String → Other
  deploy_triggered : Reply DeployTriggerResponse → Other

unfoldable pub other : Other → BuildsTab → BuildsTab
unfolding linked_effect finish_linked finish_deploy_logs start_rebuild finish_rebuild
    start_deploy_build finish_deploy_build
other effect_ran t = (linked_effect t).0
other rebuild_started t = start_rebuild t
other (linked_replied r) t = finish_linked r t
other (deploy_replied r) t = finish_deploy_logs r t
other (rebuild_replied r) t = (finish_rebuild r t).0
other (deploy_started id) t = start_deploy_build id t
other (deploy_triggered r) t = (finish_deploy_build r t).0

-- The states of the tab with the requests that wait, for the server's reply to each; they are replied to
-- in their order.
pub data Reach (server : String → Reply BuildLogsResponse) : BuildsTab → List String → Type 0 where
  opened : Reach server first_tab []
  clicked :
      {t : BuildsTab} {waiting : List String} (id : String)
      → Reach server t waiting
      → Reach server (start_view_logs id t).0 (queued (start_view_logs id t).1 waiting)
  replied :
      {t : BuildsTab} {id : String} {waiting : List String}
      → Reach server t (id ∷ waiting)
      → Reach server (finish_view_logs (server id) t) waiting
  changed :
      {t : BuildsTab} {waiting : List String} (o : Other)
      → Reach server t waiting
      → Reach server (other o t) waiting

module _ (server : String → Reply BuildLogsResponse) where
  -- For a build on view: its request is the last that waits, or its logs are there.
  abbrev pub IsCurrent : Option String → Option BuildLogsResponse → List String → Type 0
  IsCurrent none logs waiting = Unit
  IsCurrent (some id) logs [] = logs ≡ logs_of (server id)
  IsCurrent (some id) logs (w ∷ ws) = last (w ∷ ws) ≡ some id

  IsCurrent-queued :
      (id : String) (logs : Option BuildLogsResponse) (waiting : List String)
      → IsCurrent (some id) logs (waiting ++ id ∷ [])
  IsCurrent-queued id logs [] = refl
  IsCurrent-queued id logs (w ∷ []) = refl
  IsCurrent-queued id logs (w ∷ v ∷ ws) = IsCurrent-queued id logs (v ∷ ws)

  clicked-IsCurrent :
      (id : String) (t : BuildsTab) (waiting : List String)
      → IsCurrent
          (start_view_logs id t).0.viewing_logs
          (start_view_logs id t).0.rest_logs
          (queued (start_view_logs id t).1 waiting)
  unfolding start_view_logs
  clicked-IsCurrent id t waiting = elim (Bool-cases (is_viewed t.viewing_logs id)) [
    | inl same ↦ rw same tt
    | inr new ↦ rw new (IsCurrent-queued id t.rest_logs waiting)
  ]

  replied-IsCurrent :
      (v : Option String) (id : String) (logs : Option BuildLogsResponse) (waiting : List String)
      → IsCurrent v logs (id ∷ waiting)
      → IsCurrent v (logs_of (server id)) waiting
  replied-IsCurrent none id logs waiting h = tt
  replied-IsCurrent (some v) id logs [] h = ap (λ i. logs_of (server i)) (ground (arith, h))
  replied-IsCurrent (some v) id logs (w ∷ ws) h = h

  other_keeps :
      (o : Other) (t : BuildsTab)
      → ((other o t).viewing_logs ≡ t.viewing_logs) × ((other o t).rest_logs ≡ t.rest_logs)
  unfolding other linked_effect finish_linked finish_deploy_logs start_rebuild finish_rebuild
      start_deploy_build finish_deploy_build
  other_keeps o t = (ground arith, ground arith)

  Reach-IsCurrent :
      {t : BuildsTab} {waiting : List String}
      → Reach server t waiting
      → IsCurrent t.viewing_logs t.rest_logs waiting
  unfolding finish_view_logs
  Reach-IsCurrent opened = tt
  Reach-IsCurrent (clicked {t} {waiting} id r) = clicked-IsCurrent id t waiting
  Reach-IsCurrent (replied {t} {id} {waiting} r) =
      replied-IsCurrent t.viewing_logs id t.rest_logs waiting (Reach-IsCurrent r)
  Reach-IsCurrent (changed {t} {waiting} o r) =
      let (view, logs) = other_keeps o t in rw (view, logs) (Reach-IsCurrent r)

  -- If replies come in the order of their requests, then, once none waits, the logs kept are those of the
  -- build on view, whichever builds were opened and closed before.
  pub logs-view :
      (t : BuildsTab) (id : String)
      → Reach server t []
      → t.viewing_logs ≡ some id
      → t.rest_logs ≡ logs_of (server id)
  logs-view t id r h = subst (λ v. IsCurrent v t.rest_logs []) h (Reach-IsCurrent r)
