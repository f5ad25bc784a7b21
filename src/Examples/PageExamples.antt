-- ===== src/Examples/PageExamples.antt =====
-- The theorems about the project page, applied.
use tbd_dev.Prelude.{false, List, [], ◌∷◌, ◌≡◌, ◌≢◌, refl}
use tbd_dev.Client.{ok, failed}
use tbd_dev.ProjectPage.{
  Page, first_page, should_poll, finish_fetch, project_view, view, start_fetch, polling_effect,
}
use tbd_dev.ProjectPage.Polling.{
  Event, started, ticked, finished, run, step, refresh, polling_stops,
}
use tbd_dev.ProjectPage.Fetching.{content, content_of, arrive, content-arrive, error_sticks}
use tbd_dev.Examples.Data.{busy_answer, site}

abbrev first_visit : List Event
first_visit = started ∷ finished 1 (ok busy_answer) ∷ []

polling_stops_example :
    (run
      (ticked ∷ started ∷ finished 2 (ok busy_answer) ∷ [])
      (refresh busy_answer (run first_visit first_page))).interval
    ≡ false
unfolding run step start_fetch finish_fetch polling_effect should_poll
polling_stops_example =
    polling_stops first_visit busy_answer (ticked ∷ started ∷ finished 2 (ok busy_answer) ∷ []) refl
      refl (refl, tt)

abbrev two_calls : Page
two_calls = record first_page { fetches = 2 }

content-arrive_example :
    content (arrive ((2, ok busy_answer) ∷ (1, failed) ∷ []) two_calls) ≡ content_of busy_answer
content-arrive_example = content-arrive ((2, ok busy_answer) ∷ (1, failed) ∷ []) two_calls

error_sticks_example :
    view (
      run
        (started ∷ finished 3 (ok busy_answer) ∷ [])
        (record two_calls { error = "Failed to load project" }))
    ≢ project_view site
error_sticks_example =
    error_sticks (started ∷ finished 3 (ok busy_answer) ∷ [])
      (record two_calls { error = "Failed to load project" }) site refl
