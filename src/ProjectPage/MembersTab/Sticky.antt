-- ===== src/ProjectPage/MembersTab/Sticky.antt =====
-- The tab's error.
use tbd_dev.Prelude.{String, true, false, Option, List, [], ◌∷◌, ◌≡◌, refl, arith, truthy_text}
use tbd_dev.Types.Accounts.{UserSearchResponse}
use tbd_dev.Types.Projects.{ProjectMember, ProjectMemberListResponse}
use tbd_dev.Client.{Reply, ok, api_error, failed}
use tbd_dev.ProjectPage.MembersTab.{
  Search, MembersTab, search_effect, start_search, finish_search, edit_query, click_outside,
  finish_fetch, start_add, finish_add, end_add, start_remove, finish_remove, end_remove, error_view,
  view,
}

-- Whatever happens to the tab.
pub data Event : Type 0 where
  edited : String → Event
  clicked_outside fired add_started add_ended remove_started remove_ended : Event
  searched : Search → Reply UserSearchResponse → Event
  fetched : Reply ProjectMemberListResponse → Event
  added : Reply ProjectMember → Event
  chosen : Option ProjectMember → Event
  removed : Reply (Unit {0}) → Event

module _ (trim : String → String) (owner_id : String) where
  unfoldable pub step : Event → MembersTab → MembersTab
  unfolding search_effect start_search finish_search edit_query click_outside finish_fetch start_add
      finish_add end_add start_remove finish_remove end_remove
  step (edited q) t = edit_query trim q t
  step clicked_outside t = click_outside t
  step fired t = (start_search t).0
  step add_started t = start_add t
  step add_ended t = end_add t
  step remove_started t = (start_remove t).0
  step remove_ended t = end_remove t
  step (searched s r) t = finish_search owner_id s r t
  step (fetched r) t = finish_fetch trim r t
  step (added r) t = (finish_add trim r t).0
  step (chosen m) t = record t { remove_target = m }
  step (removed r) t = (finish_remove r t).0

  abbrev pub run : List Event → MembersTab → MembersTab
  run [] t = t
  run (e ∷ es) t = run es (step e t)

  step-error :
      (e : Event) (t : MembersTab)
      → truthy_text t.error ≡ true
      → truthy_text (step e t).error ≡ true
  unfolding step search_effect start_search finish_search edit_query click_outside finish_fetch
      start_add finish_add end_add start_remove finish_remove end_remove
  step-error (edited q) t h = ground arith
  step-error clicked_outside t h = h
  step-error fired t h = ground arith
  step-error add_started t h = h
  step-error add_ended t h = h
  step-error remove_started t h = ground arith
  step-error remove_ended t h = h
  step-error (searched s (ok r)) t h = h
  step-error (searched s _) t h = h
  step-error (fetched (ok r)) t h = ground arith
  step-error (fetched _) t h = refl
  step-error (added (ok r)) t h = ground arith
  step-error (added (api_error n d)) t h = h
  step-error (added failed) t h = h
  step-error (chosen m) t h = h
  step-error (removed (ok r)) t h = h
  step-error (removed _) t h = refl

  run-error :
      (es : List Event) (t : MembersTab)
      → truthy_text t.error ≡ true
      → truthy_text (run es t).error ≡ true
  run-error [] t h = h
  run-error (e ∷ es) t h = run-error es (step e t) (step-error e t h)

  -- An error is never taken back: after a removal or a load that failed, whatever succeeds later, a tab
  -- that has loaded and has no members is the error and nothing else, so that nobody can be added to
  -- it.
  pub error_sticks_lem :
      (es : List Event) (t : MembersTab)
      → truthy_text t.error ≡ true
      → (run es t).loading ≡ false
      → (run es t).members ≡ []
      → view (run es t) ≡ error_view (run es t).error
  unfolding view
  error_sticks_lem es t h loaded empty = rw (loaded, run-error es t h, empty) refl
