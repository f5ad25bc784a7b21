-- ===== src/ProjectPage/MembersTab/Searched.antt =====
-- Whom the search offers.
use tbd_dev.Prelude.{
  false, String, Bool, true, some, List, [], ◌∷◌, ◌≡◌, refl, arith, not, truthy_text, filterb, ap,
  any, ◌||◌, ◌&&◌, sym, Option-cases, Bool-cases, inl, inr, ◌==◌, eq_iff, ◌∙◌,
}
use tbd_dev.Types.Accounts.{UserSearchResult, UserSearchResponse}
use tbd_dev.Types.Projects.{ProjectMember, ProjectMemberListResponse}
use tbd_dev.Client.{ok, api_error, failed}
use tbd_dev.ProjectPage.MembersTab.{
  Search, MembersTab, first_tab, edit_query, search_effect, start_search, finish_search,
  is_excluded, click_outside, finish_fetch, start_add, finish_add, end_add, start_remove,
  finish_remove, end_remove,
}
use tbd_dev.ProjectPage.MembersTab.Sticky.{
  Event, edited, clicked_outside, fired, add_started, add_ended, remove_started, remove_ended,
  searched, fetched, added, chosen, removed, step, run,
}

-- How often a person stands in a list.
abbrev pub occurs : String → List UserSearchResult → Bool
occurs id us = any (λ (u : UserSearchResult). u.id == id) us

occurs-filterb :
    (keep : String → Bool) (id : String) (us : List UserSearchResult)
    → occurs id (filterb (λ (u : UserSearchResult). keep u.id) us) ≡ (occurs id us && keep id)
occurs-filterb keep id [] = refl
occurs-filterb keep id (u ∷ us) = elim (Bool-cases (u.id == id)) [
  | inl same ↦
      let kept = ap keep ((eq_iff u.id id).0 same) in
      elim (Bool-cases (keep id)) [
        | inl keeps ↦ rw (kept, keeps, same) refl
        | inr drops ↦ rw (kept, drops) (occurs-filterb keep id us ∙ rw drops (ground arith))
      ]
  | inr other ↦ elim (Bool-cases (keep u.id)) [
    | inl keeps ↦ rw (keeps, other) (occurs-filterb keep id us)
    | inr drops ↦ rw (drops, other) (occurs-filterb keep id us)
  ]
]

abbrev pub due : String → MembersTab → Search
due q t = record { query = q; members = t.members }

-- A search that waits has the query and the members of now, and its query is not blank.
IsFresh : (String → String) → MembersTab → Type 0
IsFresh trim t =
    (s : Search)
    → t.timer ≡ some s
    → (s ≡ due (trim t.search_query) t) × (truthy_text s.query ≡ true)

module _ (trim : String → String) (owner_id : String) where
  search_effect-IsFresh : (t : MembersTab) → IsFresh trim (search_effect trim t)
  unfolding IsFresh search_effect
  search_effect-IsFresh t s = elim (Bool-cases (truthy_text (trim t.search_query))) [
    | inl told ↦
        rw told (λ e. let h : due (trim t.search_query) t ≡ s = cc in (sym h, rw (← h) told))
    | inr blank ↦ rw blank (λ e. cc)
  ]

  start_search-IsFresh : (t : MembersTab) → IsFresh trim t → IsFresh trim (start_search t).0
  unfolding IsFresh start_search
  start_search-IsFresh t h s = elim (Option-cases t.timer) [
    | inl none_left ↦ rw none_left (λ e. absurd (cc))
    | inr (pending, at) ↦ rw at (λ e. absurd (cc))
  ]

  start_remove-IsFresh : (t : MembersTab) → IsFresh trim t → IsFresh trim (start_remove t).0
  unfolding IsFresh start_remove
  start_remove-IsFresh t h s = elim (Option-cases t.remove_target) [
    | inl nobody ↦ rw nobody (h s)
    | inr (m, at) ↦ rw at (h s)
  ]

  step-IsFresh :
      (e : Event) (t : MembersTab) → IsFresh trim t → IsFresh trim (step trim owner_id e t)
  unfolding step IsFresh finish_search edit_query click_outside finish_fetch start_add finish_add
      end_add finish_remove end_remove
  step-IsFresh (edited q) t h = search_effect-IsFresh (record t { search_query = q })
  step-IsFresh clicked_outside t h = h
  step-IsFresh fired t h = start_search-IsFresh t h
  step-IsFresh add_started t h = h
  step-IsFresh add_ended t h = h
  step-IsFresh remove_started t h = start_remove-IsFresh t h
  step-IsFresh remove_ended t h = h
  step-IsFresh (searched s (ok r)) t h = h
  step-IsFresh (searched s _) t h = h
  step-IsFresh (fetched (ok r)) t h =
      search_effect-IsFresh (record t { members = r.items; loading = false })
  step-IsFresh (fetched _) t h = h
  step-IsFresh (added (ok r)) t h =
      search_effect-IsFresh
        (record t { search_query = ""; search_results = []; show_results = false })
  step-IsFresh (added (api_error n d)) t h = h
  step-IsFresh (added failed) t h = h
  step-IsFresh (chosen m) t h = h
  step-IsFresh (removed (ok r)) t h = h
  step-IsFresh (removed _) t h = h

  run-IsFresh :
      (es : List Event) (t : MembersTab) → IsFresh trim t → IsFresh trim (run trim owner_id es t)
  run-IsFresh [] t h = h
  run-IsFresh (e ∷ es) t h = run-IsFresh es (step trim owner_id e t) (step-IsFresh e t h)

  start_search-timer : (t : MembersTab) → (start_search t).1 ≡ t.timer
  unfolding start_search
  start_search-timer t = elim (Option-cases t.timer) [
    | inl none_left ↦ rw none_left refl
    | inr (s, at) ↦ rw at refl
  ]

  -- After any events of the tab, a search that is sent asks for the query of then, which is not blank, and
  -- when it succeeds, whatever has happened in between, it offers exactly those of the server's people who
  -- are neither the owner nor a member of then. If new members are loaded before it is sent,
  -- the search that is sent instead asks for the same query and goes by those members.
  pub search_lem :
      (es : List Event) (id : String) (s : Search) (res : UserSearchResponse) (t' : MembersTab)
      (loaded : ProjectMemberListResponse)
      → (start_search (run trim owner_id es first_tab)).1 ≡ some s
      → (s.query ≡ trim (run trim owner_id es first_tab).search_query)
        × (truthy_text s.query ≡ true)
        × (occurs id (finish_search owner_id s (ok res) t').search_results ≡ (
            occurs id res.items
            && not (
                (owner_id == id)
                || any
                    (λ (m : ProjectMember). m.user_id == id)
                    (run trim owner_id es first_tab).members)))
        × ((start_search (finish_fetch trim (ok loaded) (run trim owner_id es first_tab))).1
            ≡ some (record { query = s.query; members = loaded.items }))
  unfolding IsFresh finish_search finish_fetch search_effect start_search
  search_lem es id s res t' loaded sent =
      let t = run trim owner_id es first_tab in
      let (same, told) =
        run-IsFresh es first_tab (λ u e. cc) s (sym (start_search-timer t) ∙ sent) in
      (
        ap (λ (u : Search). u.query) same,
        told,
        occurs-filterb (λ i. not (is_excluded owner_id s.members i)) id res.items
            ∙ ap (λ (u : Search). occurs id res.items && not (is_excluded owner_id u.members id))
                same,
        renewed t (ap (λ (u : Search). u.query) same) told,
      )
    where
      renewed :
          (t : MembersTab)
          → s.query ≡ trim t.search_query
          → truthy_text s.query ≡ true
          → (start_search (finish_fetch trim (ok loaded) t)).1
            ≡ some (record { query = s.query; members = loaded.items })
      renewed t same told = let told' = rw same at told in rw told' (rw same refl)
