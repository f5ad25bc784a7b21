-- ===== src/ProjectPage/Polling.antt =====
-- When the project page polls.
use tbd_dev.Prelude.{
  ℕ, Bool, true, false, List, [], ◌∷◌, ◌≡◌, arith, ◌&&◌, Bool-cases, ap, ◌∙◌, inl, inr, eqb,
  eqb_refl,
}
use tbd_dev.Client.{Reply, ok, api_error, failed}
use tbd_dev.ProjectPage.{
  Snapshot, Page, first_page, PollingStatus, idle, polling, should_poll, polling_effect,
  start_fetch, tick, show, finish_fetch,
}

-- What can happen to the page: a call of `fetchAll` by a handler, a tick, an answer.
pub data Event : Type 0 where
  started ticked : Event
  finished : ℕ → Reply Snapshot → Event

unfoldable pub step : Event → Page → Page
step started p = start_fetch p
step ticked p = tick p
step (finished k reply) p = finish_fetch k reply p

unfoldable pub run : List Event → Page → Page
run [] p = p
run (e ∷ es) p = run es (step e p)

-- The interval runs only while the last run of the effect left a cleanup for it, and only in the
-- status `polling`.
pub record IsWellKept (p : Page) : Type 0 where
  pub owned : p.interval ≡ true → p.has_cleanup ≡ true
  pub status : p.interval ≡ true → p.last_status ≡ polling

polling_effect-IsWellKept : (p : Page) → IsWellKept p → IsWellKept (polling_effect p)
unfolding polling_effect
polling_effect-IsWellKept p w = ground arith

step-IsWellKept : (e : Event) (p : Page) → IsWellKept p → IsWellKept (step e p)
unfolding step start_fetch tick finish_fetch
step-IsWellKept started p w = ground arith
step-IsWellKept ticked p w = ground arith
step-IsWellKept (finished k (ok s)) p w = elim (Bool-cases (eqb k p.fetches)) [
  | inl newest ↦ rw newest (polling_effect-IsWellKept (show s p) (ground arith))
  | inr stale ↦ rw stale (ground arith)
]
step-IsWellKept (finished k _) p w = ground arith

run-IsWellKept : (es : List Event) (p : Page) → IsWellKept p → IsWellKept (run es p)
unfolding run
run-IsWellKept [] p w = w
run-IsWellKept (e ∷ es) p w = run-IsWellKept es (step e p) (step-IsWellKept e p w)

-- The page as the newest answer leaves it.
abbrev pub refresh : Snapshot → Page → Page
refresh s p = finish_fetch p.fetches (ok s) p

abbrev is_idle : PollingStatus → Bool
is_idle idle = true
is_idle polling = false

interval-effect :
    (p : Page)
    → IsWellKept p
    → (polling_effect p).interval ≡ (should_poll p.builds p.deploys && is_idle p.last_status)
unfolding polling_effect
interval-effect p w = ground arith

finish_newest : (s : Snapshot) (p : Page) → refresh s p ≡ polling_effect (show s p)
unfolding finish_fetch
finish_newest s p = rw (eqb_refl p.fetches)

interval-finish :
    (s : Snapshot) (p : Page)
    → IsWellKept p
    → (refresh s p).interval ≡ (should_poll s.builds s.deploys && is_idle p.last_status)
interval-finish s p w =
    ap (λ (q : Page). q.interval) (finish_newest s p) ∙ interval-effect (show s p) (ground arith)

-- After any history, once the newest answer is in, the interval runs exactly if the answer shows work
-- under way and the page was idle before: it is not set anew while the page is polling already.
pub interval-refresh :
    (es : List Event) (s : Snapshot)
    → (refresh s (run es first_page)).interval
      ≡ (should_poll s.builds s.deploys && is_idle (run es first_page).last_status)
interval-refresh es s =
    interval-finish s (run es first_page) (run-IsWellKept es first_page (ground arith))

-- Every answer that the events bring shows work under way.
abbrev pub AllBusy : List Event → Type 0
AllBusy [] = Unit
AllBusy (finished k (ok s) ∷ es) = (should_poll s.builds s.deploys ≡ true) × AllBusy es
AllBusy (e ∷ es) = AllBusy es

record IsOff (p : Page) : Type 0 where
  off : p.interval ≡ false
  status : p.last_status ≡ polling

busy_effect-IsOff :
    (p : Page)
    → should_poll p.builds p.deploys ≡ true
    → p.last_status ≡ polling
    → IsWellKept p
    → IsOff (polling_effect p)
unfolding polling_effect
busy_effect-IsOff p busy h w = ground arith

finish-IsOff :
    (k : ℕ) (s : Snapshot) (p : Page)
    → should_poll s.builds s.deploys ≡ true
    → IsOff p
    → IsOff (finish_fetch k (ok s) p)
unfolding finish_fetch
finish-IsOff k s p busy o = elim (Bool-cases (eqb k p.fetches)) [
  | inl newest ↦ rw newest (busy_effect-IsOff (show s p) busy o.status (ground arith))
  | inr stale ↦ rw stale (ground arith)
]

run-IsOff : (es : List Event) (p : Page) → AllBusy es → IsOff p → IsOff (run es p)
unfolding run step start_fetch tick
run-IsOff [] p b o = o
run-IsOff (started ∷ es) p b o = run-IsOff es _ b (ground arith)
run-IsOff (ticked ∷ es) p b o = run-IsOff es _ b (ground arith)
run-IsOff (finished k (ok s) ∷ es) p (busy, b) o = run-IsOff es _ b (finish-IsOff k s p busy o)
run-IsOff (finished k (api_error n d) ∷ es) p b o =
    run-IsOff es _ b (unfold finish_fetch in ground arith)
run-IsOff (finished k failed ∷ es) p b o = run-IsOff es _ b (unfold finish_fetch in ground arith)

-- Polling asks once only: after any history that left the page polling, from the next answer that
-- shows work under way on, no interval runs as long as every answer shows work under way.
pub polling_stops :
    (history : List Event) (s : Snapshot) (es : List Event)
    → (run history first_page).last_status ≡ polling
    → should_poll s.builds s.deploys ≡ true
    → AllBusy es
    → (run es (refresh s (run history first_page))).interval ≡ false
polling_stops history s es h busy b = (run-IsOff es _ b first_off).off
  where
    first_off : IsOff (refresh s (run history first_page))
    first_off = rw (finish_newest s (run history first_page)) (
        busy_effect-IsOff (show s (run history first_page)) busy h
          (let w = run-IsWellKept history first_page (ground arith) in ground arith))
