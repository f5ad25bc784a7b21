-- ===== src/Examples/TabExamples.antt =====
-- The theorems about the tabs of the project page, applied.
use tbd_dev.Prelude.{String, true, false, none, some, List, [], ◌∷◌, ◌≡◌, ◌↔◌, refl, if◌then◌else◌}
use tbd_dev.Types.Accounts.{UserSearchResponse}
use tbd_dev.Types.Projects.{ProjectMember}
use tbd_dev.Types.Deploys.{BuildLogsResponse}
use tbd_dev.Client.{Reply, ok, failed}
use tbd_dev.ProjectPage.DeploysTab.{Request, first_tab, stop, start_stop}
use tbd_dev.ProjectPage.DeploysTab.Flight.{
  press, finish, busy, count, opened, pressed, replied, Reach-IsSingle,
}
use tbd_dev.ProjectPage.Settings.{SettingsTab, initial, build_settings_changed}
use tbd_dev.ProjectPage.Settings.Handlers.{build_body, start_toggle_auto_deploy}
use tbd_dev.ProjectPage.Settings.Acknowledged as Acknowledged
use tbd_dev.ProjectPage.Settings.Acknowledged.{
  auto, flip, settle, Acked, acknowledge, IsFaithful, Reach-IsFaithful,
}
use tbd_dev.ProjectPage.Settings.Saved.{patched, build_settings_changed_iff}
use tbd_dev.ProjectPage.BuildsTab as BuildsTab
use tbd_dev.ProjectPage.BuildsTab.{start_view_logs, finish_view_logs, logs_of}
use tbd_dev.ProjectPage.BuildsTab.InOrder as InOrder
use tbd_dev.ProjectPage.BuildsTab.InOrder.{logs-view}
use tbd_dev.ProjectPage.MembersTab as MembersTab
use tbd_dev.ProjectPage.MembersTab.{
  Search, edit_query, search_effect, start_search, finish_search, finish_fetch, finish_remove, View,
  error_view, view,
}
use tbd_dev.ProjectPage.MembersTab.Searched.{occurs, search_lem}
use tbd_dev.ProjectPage.MembersTab.Sticky.{
  Event, edited as typed, step, run, fetched, removed, error_sticks_lem,
}
use tbd_dev.Examples.Data.{site}
use tbd_dev.Examples.Machine.{tally}

abbrev stop_d1 : Request
stop_d1 = record { action = stop; deploy_id = "d1" }

Reach-IsSingle_example :
    count stop []
    ≡ (if busy stop (finish stop failed (press stop "d1" first_tab).0).0 then 1 else 0)
unfolding press start_stop
Reach-IsSingle_example =
    Reach-IsSingle (replied [] [] stop_d1 failed (pressed stop "d1" opened refl)) stop

abbrev stored : Acked
stored = record { auto_deploy = true; deploy_locked = false }

Reach-IsFaithful_example :
    IsFaithful
      (settle auto false failed (flip auto (initial tally site)).0).0
      none
      (acknowledge auto false failed stored)
unfolding flip start_toggle_auto_deploy initial
Reach-IsFaithful_example =
    Reach-IsFaithful {print = tally} {p = site}
      (Acknowledged.replied auto false failed (Acknowledged.flipped auto Acknowledged.opened refl))

abbrev edited : SettingsTab
edited = record (initial tally site) { build_command = "make" }

build_settings_changed_iff_example : (build_settings_changed edited site ≡ false) ↔ (
    (patched (build_body edited).root_directory none ≡ none)
    × (patched (build_body edited).build_command none ≡ none)
    × (patched (build_body edited).install_command none ≡ none)
    × (patched (build_body edited).output_directory none ≡ none))
build_settings_changed_iff_example = build_settings_changed_iff edited site

abbrev log_server : String → Reply BuildLogsResponse
log_server id = ok (record { build_id = id; status = "failed"; logs = some "error" })

-- Two builds are opened one after the other.
abbrev both_opened : BuildsTab.BuildsTab
both_opened = (start_view_logs "b" (start_view_logs "a" BuildsTab.first_tab).0).0

abbrev both_replied : BuildsTab.BuildsTab
both_replied = finish_view_logs (log_server "b") (finish_view_logs (log_server "a") both_opened)

logs-view_example : both_replied.rest_logs ≡ logs_of (log_server "b")
unfolding start_view_logs finish_view_logs
logs-view_example =
    logs-view log_server both_replied "b"
      (InOrder.replied (InOrder.replied (InOrder.clicked "b" (InOrder.clicked "a" InOrder.opened))))
      refl

abbrev grace : ProjectMember
grace = record {
  id = "m1";
  project_id = "p1";
  user_id = "u2";
  role = "member";
  username = "grace";
  display_name = "Grace";
  email = "grace@example.edu";
  created_at = "2025-01-01T00:00:00Z";
}

abbrev not_removed : MembersTab.MembersTab
not_removed = record MembersTab.first_tab {
  loading = false;
  members = grace ∷ [];
  error = "Failed to remove member";
}

error_sticks_lem_example :
    view (
      run
        (λ s. s)
        "u1"
        (removed (ok tt) ∷ fetched (ok (record { items = []; total = 0 })) ∷ [])
        not_removed)
    ≡ error_view "Failed to remove member"
unfolding step finish_remove finish_fetch search_effect
error_sticks_lem_example =
    error_sticks_lem (λ s. s) "u1"
      (removed (ok tt) ∷ fetched (ok (record { items = []; total = 0 })) ∷ []) not_removed refl refl
      refl

abbrev people : UserSearchResponse
people = record {
  items =
      record { id = "u2"; username = "grace"; display_name = "Grace"; email = "grace@example.edu" }
      ∷ [];
  total = 1;
}

abbrev loaded_then_typed : List Event
loaded_then_typed = fetched (ok (record { items = grace ∷ []; total = 1 })) ∷ typed "gr" ∷ []

abbrev gr : Search
gr = record { query = "gr"; members = grace ∷ [] }

search_lem_example :
    ("gr" ≡ (run (λ s. s) "u1" loaded_then_typed MembersTab.first_tab).search_query)
    × (true ≡ true)
    × (occurs "u2" (finish_search "u1" gr (ok people) not_removed).search_results ≡ false)
    × ((start_search (
          finish_fetch
            (λ s. s)
            (ok (record { items = []; total = 0 }))
            (run (λ s. s) "u1" loaded_then_typed MembersTab.first_tab))).1
        ≡ some (record { query = "gr"; members = [] }))
unfolding step start_search finish_fetch edit_query search_effect
search_lem_example =
    search_lem (λ s. s) "u1" loaded_then_typed "u2" gr people not_removed
      (record { items = []; total = 0 }) refl
