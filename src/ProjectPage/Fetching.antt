-- ===== src/ProjectPage/Fetching.antt =====
-- What overlapping calls of `fetchAll` show.
use tbd_dev.Prelude.{
  ℕ, true, false, Option, none, some, List, [], ◌∷◌, ◌≡◌, ◌≢◌, refl, arith, eqb, if◌then◌else◌,
  Bool-cases, inl, inr, truthy_text, ◌∙◌, ap, ap₂,
}
use tbd_dev.Types.Projects.{Environment, Project}
use tbd_dev.Types.Deploys.{Build, Deploy}
use tbd_dev.Client.{Reply, ok, api_error, failed}
use tbd_dev.ProjectPage.{
  Snapshot, Page, polling_effect, start_fetch, tick, show, fetch_error, finish_fetch, error_view,
  project_view, view,
}
use tbd_dev.ProjectPage.Polling.{Event, started, ticked, finished, step, run}

-- The data on the page.
pub record Content : Type 0 where
  pub project : Option Project
  pub environments : List Environment
  pub builds : List Build
  pub deploys : List Deploy

abbrev pub content : Page → Content
content p = record {
  project = p.project;
  environments = p.environments;
  builds = p.builds;
  deploys = p.deploys;
}

abbrev pub content_of : Snapshot → Content
content_of s = record {
  project = some s.project;
  environments = s.environments;
  builds = s.builds;
  deploys = s.deploys;
}

-- The content that answers leave when only those of the call number `n` count.
abbrev pub counting : ℕ → List (ℕ × Reply Snapshot) → Content → Content
counting n [] c = c
counting n ((k, ok s) ∷ answers) c = counting n answers (if eqb k n then content_of s else c)
counting n ((k, _) ∷ answers) c = counting n answers c

abbrev pub arrive : List (ℕ × Reply Snapshot) → Page → Page
arrive [] p = p
arrive ((k, reply) ∷ answers) p = arrive answers (finish_fetch k reply p)

polling_effect_keeps :
    (p : Page)
    → (content (polling_effect p) ≡ content p)
      × ((polling_effect p).fetches ≡ p.fetches)
      × ((polling_effect p).error ≡ p.error)
      × ((polling_effect p).loading ≡ p.loading)
unfolding polling_effect
polling_effect_keeps p = ground arith

-- One answer leaves the number of calls, ends the loading state, and counts only for the newest call.
finish_fetch_keeps :
    (k : ℕ) (reply : Reply Snapshot) (p : Page)
    → ((finish_fetch k reply p).fetches ≡ p.fetches)
      × (content (finish_fetch k reply p) ≡ counting p.fetches ((k, reply) ∷ []) (content p))
      × ((finish_fetch k reply p).loading ≡ false)
unfolding finish_fetch
finish_fetch_keeps k (ok s) p = elim (Bool-cases (eqb k p.fetches)) [
  | inl newest ↦
      let (same, number, _, done) = polling_effect_keeps (show s p) in
      rw newest (number, same, done)
  | inr stale ↦ rw stale (refl, refl, refl)
]
finish_fetch_keeps k _ p = ground arith

counting_cons :
    (n k : ℕ) (reply : Reply Snapshot) (answers : List (ℕ × Reply Snapshot)) (c : Content)
    → counting n answers (counting n ((k, reply) ∷ []) c) ≡ counting n ((k, reply) ∷ answers) c
counting_cons n k (ok s) answers c = refl
counting_cons n k _ answers c = refl

-- Whatever answers arrive, in any order, for calls that were made, the page shows the last
-- answer to the newest call that succeeded, and what it showed before if there is none: an answer to
-- an earlier call, also a late one, never replaces it.
pub content-arrive :
    (answers : List (ℕ × Reply Snapshot)) (p : Page)
    → content (arrive answers p) ≡ counting p.fetches answers (content p)
content-arrive [] p = refl
content-arrive ((k, reply) ∷ answers) p =
    let (number, shown, _) = finish_fetch_keeps k reply p in
    content-arrive answers (finish_fetch k reply p)
    ∙ ap₂ (λ n c. counting n answers c) number shown
    ∙ counting_cons p.fetches k reply answers (content p)

finish_aborted :
    (k : ℕ) (reply : Reply Snapshot) (p : Page)
    → k ≢ p.fetches
    → finish_fetch k reply p ≡ record p { loading = false }
unfolding finish_fetch
finish_aborted k reply p stale = ground arith

view_of_nothing :
    (p : Page)
    → p.loading ≡ false
    → p.project ≡ none
    → p.error ≡ ""
    → view p ≡ error_view "Project not found"
unfolding view
view_of_nothing p done empty fine = simp (done, empty, fine)

-- A call that a newer one aborted ends the loading state: on a page that has shown nothing and met no
-- error yet, the visitor reads that the project was not found while the newer call is still pending.
pub view_aborted :
    (k : ℕ) (reply : Reply Snapshot) (p : Page)
    → k ≢ p.fetches
    → p.project ≡ none
    → p.error ≡ ""
    → view (finish_fetch k reply p) ≡ error_view "Project not found"
view_aborted k reply p stale empty fine =
    ap view (finish_aborted k reply p stale)
    ∙ view_of_nothing (record p { loading = false }) refl empty fine

truthy-fetch_error : (reply : Reply Snapshot) → truthy_text (fetch_error reply) ≡ true
unfolding fetch_error
truthy-fetch_error (api_error status detail) = elim (Bool-cases (eqb status 404)) [
  | inl missing ↦ rw missing
  | inr other ↦ rw other
]
truthy-fetch_error _ = refl

step_keeps_error :
    (e : Event) (p : Page) → truthy_text p.error ≡ true → truthy_text (step e p).error ≡ true
unfolding step start_fetch tick finish_fetch
step_keeps_error started p h = h
step_keeps_error ticked p h = ground arith
step_keeps_error (finished k (ok s)) p h = elim (Bool-cases (eqb k p.fetches)) [
  | inl newest ↦ rw newest (rw ((polling_effect_keeps (show s p)).2) h)
  | inr stale ↦ rw stale h
]
step_keeps_error (finished k (api_error n d)) p h = elim (Bool-cases (eqb k p.fetches)) [
  | inl newest ↦ rw newest (truthy-fetch_error (api_error n d))
  | inr stale ↦ rw stale h
]
step_keeps_error (finished k failed) p h = elim (Bool-cases (eqb k p.fetches)) [
  | inl newest ↦ rw newest (truthy-fetch_error failed)
  | inr stale ↦ rw stale h
]

run_keeps_error :
    (es : List Event) (p : Page) → truthy_text p.error ≡ true → truthy_text (run es p).error ≡ true
unfolding run
run_keeps_error [] p h = h
run_keeps_error (e ∷ es) p h = run_keeps_error es (step e p) (step_keeps_error e p h)

view_of_error :
    (p : Page) (proj : Project) → truthy_text p.error ≡ true → view p ≢ project_view proj
unfolding view
view_of_error p proj h e = ground arith

-- An error stays: whatever succeeds after it, the page shows an error, or that it is loading.
pub error_sticks :
    (es : List Event) (p : Page) (proj : Project)
    → truthy_text p.error ≡ true
    → view (run es p) ≢ project_view proj
error_sticks es p proj h = view_of_error (run es p) proj (run_keeps_error es p h)
