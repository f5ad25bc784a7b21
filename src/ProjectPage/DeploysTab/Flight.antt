-- ===== src/ProjectPage/DeploysTab/Flight.antt =====
-- One request of a kind at a time.
use tbd_dev.Prelude.{
  ℕ, ◌+◌, String, Bool, true, false, ◌&&◌, ◌||◌, Option, none, some, List, [], ◌∷◌, ◌++◌, ◌≡◌,
  arith, if◌then◌else◌, truthy, ap, ◌∙◌, sym, truthy_text,
}
use tbd_dev.Types.Deploys.{Deploy}
use tbd_dev.Client.{Reply}
use tbd_dev.ProjectPage.DeploysTab.{
  Action, rollback, stop, start, promote, destroy, Request, DeploysTab, first_tab, start_rollback,
  start_stop, start_start, start_promote, start_destroy, finish_rollback, finish_stop, finish_start,
  finish_promote, finish_destroy, offered, has_container,
}

unfoldable pub same : Action → Action → Bool
same rollback rollback = true
same stop stop = true
same start start = true
same promote promote = true
same destroy destroy = true
same _ _ = false

-- A click on a row's button, or the confirmation of the dialog.
unfoldable pub press : Action → String → DeploysTab → DeploysTab × Option Request
unfolding start_rollback start_stop start_start start_promote start_destroy
press rollback deploy_id t = start_rollback deploy_id t
press stop deploy_id t = start_stop deploy_id t
press start deploy_id t = start_start deploy_id t
press promote deploy_id t = start_promote deploy_id t
press destroy deploy_id t = start_destroy t

unfoldable pub finish : Action → Reply Deploy → DeploysTab → DeploysTab × Bool
unfolding finish_rollback finish_stop finish_start finish_promote finish_destroy
finish rollback r t = finish_rollback r t
finish stop r t = finish_stop r t
finish start r t = finish_start r t
finish promote r t = finish_promote r t
finish destroy r t = finish_destroy r t

unfoldable pub busy : Action → DeploysTab → Bool
busy rollback t = truthy t.rolling
busy stop t = truthy t.stopping
busy start t = truthy t.starting
busy promote t = truthy t.promoting
busy destroy t = t.destroying

abbrev pub sent : Option Request → List Request → List Request
sent none waiting = waiting
sent (some r) waiting = r ∷ waiting

-- The states of the tab with the requests that wait for a reply, which come in any order. A deploy's
-- identifier is not empty.
pub data Reach : DeploysTab → List Request → Type 0 where
  opened : Reach first_tab []
  pressed :
      {t : DeploysTab} {waiting : List Request} (a : Action) (deploy_id : String)
      → Reach t waiting
      → truthy_text deploy_id ≡ true
      → Reach (press a deploy_id t).0 (sent (press a deploy_id t).1 waiting)
  chosen :
      {t : DeploysTab} {waiting : List Request} (d : Option Deploy)
      → Reach t waiting
      → Reach (record t { destroy_target = d }) waiting
  replied :
      {t : DeploysTab} (before after : List Request) (r : Request) (reply : Reply Deploy)
      → Reach t (before ++ r ∷ after)
      → Reach (finish r.action reply t).0 (before ++ after)

-- The requests of a kind.
unfoldable pub count : Action → List Request → ℕ
count a [] = 0
count a (r ∷ rs) = (if same a r.action then 1 else 0) + count a rs

count-append :
    (a : Action) (before after : List Request)
    → count a (before ++ after) ≡ count a before + count a after
unfolding count
count-append a [] after = omega arith
count-append a (r ∷ before) after = omega (arith, count-append a before after)

abbrev flag : Bool → ℕ
flag b = if b then 1 else 0

press-count :
    (a b : Action) (deploy_id : String) (t : DeploysTab) (waiting : List Request)
    → truthy_text deploy_id ≡ true
    → count b waiting ≡ flag (busy b t)
    → count b (sent (press a deploy_id t).1 waiting) ≡ flag (busy b (press a deploy_id t).0)
unfolding press busy count same start_rollback start_stop start_start start_promote start_destroy
press-count rollback b deploy_id t waiting h k = ground arith
press-count stop b deploy_id t waiting h k = ground arith
press-count start b deploy_id t waiting h k = ground arith
press-count promote b deploy_id t waiting h k = ground arith
press-count destroy b deploy_id t waiting h k = ground arith

finish-count :
    (a b : Action) (reply : Reply Deploy) (t : DeploysTab) (n : ℕ)
    → (if same b a then 1 else 0) + n ≡ flag (busy b t)
    → n ≡ flag (busy b (finish a reply t).0)
unfolding finish busy same finish_rollback finish_stop finish_start finish_promote finish_destroy
finish-count rollback b reply t n k = ground arith
finish-count stop b reply t n k = ground arith
finish-count start b reply t n k = ground arith
finish-count promote b reply t n k = ground arith
finish-count destroy b reply t n k = ground arith

chosen-busy :
    (a : Action) (d : Option Deploy) (t : DeploysTab)
    → busy a (record t { destroy_target = d }) ≡ busy a t
unfolding busy
chosen-busy a d t = ground arith

-- However clicks and replies follow each other, at most one request of a kind waits for its reply, and
-- one does exactly while the tab shows that kind as under way: no click is sent twice, and no flag stays
-- behind a reply that came, be it an error.
pub Reach-IsSingle :
    {t : DeploysTab} {waiting : List Request}
    → Reach t waiting
    → (a : Action) → count a waiting ≡ (if busy a t then 1 else 0)
unfolding count busy
Reach-IsSingle opened a = ground arith
Reach-IsSingle (pressed {t} {waiting} b deploy_id r h) a =
    press-count b a deploy_id t waiting h (Reach-IsSingle r a)
Reach-IsSingle (chosen {t} {waiting} d r) a = Reach-IsSingle r a ∙ ap flag (sym (chosen-busy a d t))
Reach-IsSingle (replied {t} before after r reply reached) a =
    finish-count r.action a reply t (count a (before ++ after)) (
      omega (
        arith,
        Reach-IsSingle reached a,
        count-append a before (r ∷ after),
        count-append a before after,
      ))

-- What a row offers: stopping and starting exclude each other, and so do rolling back and promoting;
-- what can be rolled back or promoted can be stopped, and what can be stopped can be destroyed; a deploy
-- that cannot be destroyed offers nothing.
pub offered_lem :
    (d : Deploy)
    → ((offered stop d && offered start d) ≡ false)
      × ((offered rollback d && offered promote d) ≡ false)
      × ((offered rollback d || offered promote d) ≡ true → offered stop d ≡ true)
      × (offered stop d ≡ true → offered destroy d ≡ true)
      × (offered destroy d ≡ false → (a : Action) → offered a d ≡ false)
unfolding offered has_container
offered_lem d = (ground arith, ground arith, ground arith, ground arith, λ h a. nothing h a)
  where
    nothing : offered destroy d ≡ false → (a : Action) → offered a d ≡ false
    nothing h rollback = ground arith
    nothing h stop = ground arith
    nothing h start = ground arith
    nothing h promote = ground arith
    nothing h destroy = h
